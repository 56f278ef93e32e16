-- ===== src/Ocw/Calls.antt =====
-- The dispatchable functions of pallet-ocw.
pub mod Effects
use substrate_node_template.Common.{ℕ, Option, none, some, List, [], ◌∷◌, ◌++◌}
use substrate_node_template.Frame.{System, Dispatch, done, check_origin}
use substrate_node_template.Ocw.Types.{State, Call, Payload, Event, Error, new_number}
use substrate_node_template.Ocw.Numbers.{append_or_replace_number}

-- `Self::deposit_event`
abbrev pub deposit_event :
    {AccountId : Type 0} → Event AccountId → State AccountId → State AccountId
deposit_event e s = record s { events = s.events ++ (e ∷ []) }

module _ (sys : System) where
  open sys use {Origin, AccountId, ensure_signed, ensure_none}

  abbrev pub Outcome : Type 0
  Outcome = Dispatch Error (State AccountId)

  unfoldable pub submit_number_signed : Origin → ℕ → State AccountId → Outcome
  submit_number_signed origin number s =
      check_origin (ensure_signed origin) s λ who.
        done (deposit_event (new_number (some who) number) (append_or_replace_number number s))

  unfoldable pub submit_number_unsigned : Origin → ℕ → State AccountId → Outcome
  submit_number_unsigned origin number s =
      check_origin (ensure_none origin) s
        λ _. done (deposit_event (new_number none number) (append_or_replace_number number s))

  module _ {Public Signature : Type 0} where
    unfoldable pub submit_number_unsigned_with_signed_payload :
        Origin → Payload Public → Signature → State AccountId → Outcome
    submit_number_unsigned_with_signed_payload origin payload _signature s =
        check_origin (ensure_none origin) s λ _. done (
          deposit_event (new_number none payload.number)
            (append_or_replace_number payload.number s))

    -- The dispatch of a call value that `#[pallet::call]` stands for.
    unfoldable pub dispatch : Call Public Signature → Origin → State AccountId → Outcome
    unfolding submit_number_signed submit_number_unsigned submit_number_unsigned_with_signed_payload
    dispatch (Call.submit_number_signed number) origin s = submit_number_signed origin number s
    dispatch (Call.submit_number_unsigned number) origin s = submit_number_unsigned origin number s
    dispatch (Call.submit_number_unsigned_with_signed_payload payload signature) origin s =
        submit_number_unsigned_with_signed_payload origin payload signature s
