-- ===== src/Runtime/Chain.antt =====
-- A chain of the runtime: blocks follow one another, and transactions with calls of this
-- repository's pallets are applied or fail in between. Calls of the library pallets are left out.
pub mod Failed
pub mod Atomic
pub mod Oracle
pub mod Invariant
pub mod Replay
pub mod Numbers
pub mod Reopens
use substrate_node_template.Common.{ℕ, ◌<◌, ◌≡◌, Bool, List, [], ◌∷◌, ok, u32_values, u64_values}
use substrate_node_template.Frame.{System, ValidTransaction, DispatchError, done, failed}
use substrate_node_template.Template.Bounds.{IsWordCall}
use substrate_node_template.Ocw.Types.{Payload}
use substrate_node_template.Ocw.Calls.Effects.{number_of}
use substrate_node_template.ExampleOcw.Types.{PricePayload}
use substrate_node_template.ExampleOcw.Calls.Effects.{price_of}
use substrate_node_template.Runtime.Pallets.{
  RuntimeCall, template_module, ocw_demo, ocw_example, RuntimeState, RuntimeTag, RuntimeError,
  dispatch, validate_unsigned,
}

-- The number of a call of pallet-ocw is a u64, those of the other two pallets are u32.
abbrev pub IsEncodable : {Public Signature : Type 0} → RuntimeCall Public Signature → Type 0
IsEncodable (template_module c) = IsWordCall c
IsEncodable (ocw_demo c) = number_of c < u64_values
IsEncodable (ocw_example c) = price_of c < u32_values

-- frame_system's block number, in the copies of it that the two pallets read.
abbrev pub set_block_number :
    {AccountId : Type 0} → ℕ → RuntimeState AccountId → RuntimeState AccountId
set_block_number b s = record s {
  ocw = record s.ocw { block_number = b };
  example = record s.example { block_number = b };
}

module _ (sys : System) {Public Signature : Type 0} (verify_ocw : Payload Public → Signature → Bool)
    (verify_example : PricePayload Public → Signature → Bool) where
  open sys use {Origin, AccountId, ensure_signed, ensure_none}

  -- `Run s calls t`: from `s` the chain comes to `t`, and `calls` are those of the unsigned
  -- transactions that were accepted, the last one first.
  pub data Run (s : RuntimeState AccountId)
      : List (RuntimeCall Public Signature) → RuntimeState AccountId → Type 0 where
    start : Run s [] s
    -- frame_system moves on to a later block.
    next_block :
        {l : List (RuntimeCall Public Signature)} {t : RuntimeState AccountId} (b : ℕ)
        → Run s l t
        → t.example.block_number < b
        → Run s l (set_block_number b t)
    -- A signed transaction is applied, whatever call it carries.
    signed :
        {l : List (RuntimeCall Public Signature)} {t u : RuntimeState AccountId}
        (c : RuntimeCall Public Signature) (origin : Origin) (who : AccountId)
        → Run s l t
        → IsEncodable c
        → ensure_signed origin ≡ ok who
        → dispatch sys c origin t ≡ done u
        → Run s l u
    -- An unsigned transaction is validated and applied.
    unsigned :
        {l : List (RuntimeCall Public Signature)} {t u : RuntimeState AccountId}
        {v : ValidTransaction RuntimeTag} (c : RuntimeCall Public Signature) (origin : Origin)
        → Run s l t
        → IsEncodable c
        → validate_unsigned sys verify_ocw verify_example t c ≡ ok v
        → dispatch sys c origin t ≡ done u
        → Run s (c ∷ l) u
    -- A transaction fails, whoever sent it and whatever call it carries. What it has written stays.
    rejected :
        {l : List (RuntimeCall Public Signature)} {t u : RuntimeState AccountId}
        {e : DispatchError RuntimeError} (c : RuntimeCall Public Signature) (origin : Origin)
        → Run s l t
        → dispatch sys c origin t ≡ failed e u
        → Run s l u
