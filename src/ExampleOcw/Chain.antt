-- ===== src/ExampleOcw/Chain.antt =====
-- The pallet on a chain: blocks follow one another, and transactions are applied in between. An
-- unsigned transaction is validated in the state in which it is then dispatched.
pub mod Spacing
pub mod Pending
use substrate_node_template.Common.{ℕ, zero, suc, ◌+◌, ◌<◌, ◌≡◌, Bool, ok, u32_values}
use substrate_node_template.Frame.{System, ValidTransaction, done}
use substrate_node_template.ExampleOcw.Types.{Config, State, Call, PricePayload}
use substrate_node_template.ExampleOcw.Calls.{submit_price, dispatch}
use substrate_node_template.ExampleOcw.Calls.Effects.{price_of}
use substrate_node_template.ExampleOcw.Validity.{validate_unsigned}

module _ (sys : System) (config : Config) {Public Signature : Type 0}
    (verify : PricePayload Public → Signature → Bool) where
  open sys use {Origin, AccountId}

  -- `Run s n t`: from `s` the chain comes to `t`, and `n` unsigned transactions were accepted.
  pub data Run (s : State AccountId) : ℕ → State AccountId → Type 0 where
    start : Run s zero s
    -- frame_system moves on to a later block.
    next_block :
        {n : ℕ} {t : State AccountId} (b : ℕ)
        → Run s n t
        → t.block_number < b
        → Run s n (record t { block_number = b })
    -- A signed transaction is applied, whatever call it carries.
    signed :
        {n : ℕ} {t u : State AccountId} (c : Call Public Signature) (origin : Origin)
        (who : AccountId)
        → Run s n t
        → price_of c < u32_values
        → sys.ensure_signed origin ≡ ok who
        → dispatch sys config c origin t ≡ done u
        → Run s n u
    -- An unsigned transaction is validated and applied.
    unsigned :
        {n : ℕ} {t u : State AccountId} {v : ValidTransaction ℕ} (c : Call Public Signature)
        (origin : Origin)
        → Run s n t
        → price_of c < u32_values
        → validate_unsigned config verify t c ≡ ok v
        → dispatch sys config c origin t ≡ done u
        → Run s (suc n) u
