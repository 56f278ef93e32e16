-- ===== src/ExampleOcw/Calls.antt =====
-- The dispatchable functions of pallet-example-offchain-worker.
pub mod Effects
use substrate_node_template.Common.{ℕ, ◌+◌, ◌%◌, Option, none, some}
use substrate_node_template.Frame.{System, Dispatch, done, panicked, check_origin}
use substrate_node_template.ExampleOcw.Types.{Config, State, Call, PricePayload}
use substrate_node_template.ExampleOcw.Prices.{add_price}

module _ (sys : System) (config : Config) where
  open sys use {Origin, AccountId, ensure_signed, ensure_none, default_account}

  -- The pallet declares no errors of its own.
  abbrev pub Outcome : Type 0
  Outcome = Dispatch ⊥ (State AccountId)

  abbrev after_add : Option (State AccountId) → (State AccountId → State AccountId) → Outcome
  after_add none f = panicked
  after_add (some s) f = done (f s)

  unfoldable pub submit_price : Origin → ℕ → State AccountId → Outcome
  submit_price origin price s =
      check_origin (ensure_signed origin) s λ who. after_add (add_price who price s) (λ s'. s')

  -- `NextUnsignedAt::put(current_block + T::UnsignedInterval::get())`
  unfoldable pub put_next_unsigned_at : State AccountId → State AccountId
  put_next_unsigned_at s = record s {
    next_unsigned_at = (s.block_number + config.unsigned_interval) % config.block_values;
  }

  unfoldable pub submit_price_unsigned : Origin → ℕ → ℕ → State AccountId → Outcome
  unfolding put_next_unsigned_at
  submit_price_unsigned origin _block_number price s =
      check_origin (ensure_none origin) s
        λ _. after_add (add_price default_account price s) put_next_unsigned_at

  module _ {Public Signature : Type 0} where
    unfoldable pub submit_price_unsigned_with_signed_payload :
        Origin → PricePayload Public → Signature → State AccountId → Outcome
    unfolding put_next_unsigned_at
    submit_price_unsigned_with_signed_payload origin price_payload _signature s =
        check_origin (ensure_none origin) s
          λ _. after_add (add_price default_account price_payload.price s) put_next_unsigned_at

    -- The dispatch of a call value that `#[pallet::call]` stands for.
    unfoldable pub dispatch : Call Public Signature → Origin → State AccountId → Outcome
    unfolding submit_price submit_price_unsigned submit_price_unsigned_with_signed_payload
    dispatch (Call.submit_price price) origin s = submit_price origin price s
    dispatch (Call.submit_price_unsigned block_number price) origin s =
        submit_price_unsigned origin block_number price s
    dispatch (Call.submit_price_unsigned_with_signed_payload payload signature) origin s =
        submit_price_unsigned_with_signed_payload origin payload signature s
