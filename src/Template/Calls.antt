-- ===== src/Template/Calls.antt =====
-- The call type of pallets/template/src/lib.rs, and its dispatch.
use substrate_node_template.Common.{ℕ}
use substrate_node_template.Frame.{System}
use substrate_node_template.Template

pub data Call : Type 0 where
  do_something : ℕ → Call
  cause_error : Call

module _ (sys : System) where
  open sys use {Origin, AccountId}

  -- The dispatch of a call value that `#[pallet::call]` stands for.
  unfoldable pub dispatch : Call → Origin → Template.State AccountId → Template.Outcome sys
  dispatch (do_something something) origin s = Template.do_something sys origin something s
  dispatch cause_error origin s = Template.cause_error sys origin s
