-- ===== src/Runtime/Chain/Reopens.antt =====
-- How long the oracle stays closed to unsigned transactions.
use substrate_node_template.Common.{
  ℕ, ◌+◌, ◌≤◌, ◌<◌, ◌≡◌, inl, inr, ap, Bool, true, List, ok, arith, u32_values,
}
use substrate_node_template.Frame.{System, IsLawful, ValidTransaction}
use substrate_node_template.Ocw.Types.{Payload}
use substrate_node_template.ExampleOcw.Types as ExampleTypes
use substrate_node_template.ExampleOcw.Types.{PricePayload}
use substrate_node_template.ExampleOcw.Chain.Spacing.{next_grows, block_mono}
use substrate_node_template.ExampleOcw.Chain.Pending.{next_stays}
use substrate_node_template.ExampleOcw.Validity.Window.{IsAcceptable, validate_unsigned_iff}
use substrate_node_template.Runtime.{example_config}
use substrate_node_template.Runtime.Pallets.{
  RuntimeCall, ocw_example, RuntimeState, RuntimeTag, tagged, block_tag, validate_unsigned,
}
use substrate_node_template.Runtime.Chain.{Run}
use substrate_node_template.Runtime.Chain.Oracle.{Run-oracle, oracle_calls}

module _ (sys : System) {Public Signature : Type 0} (verify_ocw : Payload Public → Signature → Bool)
    (verify_example : PricePayload Public → Signature → Bool) where
  open sys use {AccountId}

  -- An unsigned call of the oracle for block `b`, with a good signature if it has a payload.
  abbrev pub IsPriceFor : ℕ → ExampleTypes.Call Public Signature → Type 0
  IsPriceFor b (ExampleTypes.Call.submit_price price) = ⊥
  IsPriceFor b (ExampleTypes.Call.submit_price_unsigned block_number price) = block_number ≡ b
  IsPriceFor b (ExampleTypes.Call.submit_price_unsigned_with_signed_payload p g) =
      (verify_example p g ≡ true) × (p.block_number ≡ b)

  IsPriceFor-IsAcceptable :
      (s : ExampleTypes.State AccountId) (b : ℕ) (c : ExampleTypes.Call Public Signature)
      → s.next_unsigned_at ≤ b
      → b ≤ s.block_number
      → IsPriceFor b c
      → IsAcceptable example_config verify_example s c
  IsPriceFor-IsAcceptable s b (ExampleTypes.Call.submit_price price) due now h = h
  IsPriceFor-IsAcceptable s b (ExampleTypes.Call.submit_price_unsigned block_number price) due now
        h =
      omega (arith, h)
  IsPriceFor-IsAcceptable s b (ExampleTypes.Call.submit_price_unsigned_with_signed_payload p g) due
        now h =
      (h.0, omega (arith, h.1), omega (arith, h.1))

  module _ (law : IsLawful sys) where
    next_near :
        {s t : RuntimeState AccountId} {l : List (RuntimeCall Public Signature)}
        → Run sys verify_ocw verify_example s l t
        → s.example.next_unsigned_at ≤ s.example.block_number + 3
        → t.example.block_number + 3 < u32_values
        → t.example.next_unsigned_at ≤ t.example.block_number + 3
    next_near {t = t} r near fit =
        let o = Run-oracle sys verify_ocw verify_example r in
        elim (next_grows sys example_config verify_example law o fit).1 [
          | inl none_accepted ↦ omega (
            arith,
            next_stays sys example_config verify_example law o none_accepted,
            block_mono sys example_config verify_example o,
          )
          | inr close ↦ close
        ]

    -- The oracle never closes for good. Start a chain of the runtime where the next accepted block is
    -- at most three blocks after the current one. Then from wherever the chain comes to, if it goes on
    -- without accepting an unsigned call of the oracle, it takes every unsigned price for a block
    -- three blocks later or more and not after the current one, with a good signature if it has one;
    -- as long as the block number has room for the interval and no origin is both signed and unsigned.
    pub oracle_reopens :
        {s t u : RuntimeState AccountId} {l more : List (RuntimeCall Public Signature)} (b : ℕ)
        (c : ExampleTypes.Call Public Signature)
        → Run sys verify_ocw verify_example s l t
        → Run sys verify_ocw verify_example t more u
        → s.example.next_unsigned_at ≤ s.example.block_number + 3
        → t.example.block_number + 3 < u32_values
        → oracle_calls more ≡ 0
        → t.example.block_number + 3 ≤ b
        → b ≤ u.example.block_number
        → IsPriceFor b c
        → (v : ValidTransaction RuntimeTag) × (validate_unsigned sys verify_ocw verify_example u
              (ocw_example c)
            ≡ ok v)
    unfolding validate_unsigned
    oracle_reopens {u = u} b c r on near fit quiet later passed h =
        let same =
          next_stays sys example_config verify_example law
            (Run-oracle sys verify_ocw verify_example on) quiet in
        let (_, valid) = (validate_unsigned_iff example_config verify_example u.example c).1 (
          IsPriceFor-IsAcceptable u.example b c (omega (arith, next_near r near fit, same)) passed
            h) in
        (_, ap (tagged block_tag) valid)
