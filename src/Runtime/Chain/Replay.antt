-- ===== src/Runtime/Chain/Replay.antt =====
-- How long an unsigned transaction stays valid on a chain of the runtime.
use substrate_node_template.Common.{
  ◌+◌, ◌<◌, ◌≡◌, ◌⊎◌, ◌↔◌, ap, inl, inr, Bool, List, ok, u32_values, arith,
}
use substrate_node_template.Frame.{System, IsLawful, ValidTransaction}
use substrate_node_template.Ocw.Types.{Payload}
use substrate_node_template.ExampleOcw.Types.{PricePayload}
use substrate_node_template.ExampleOcw.Chain.Pending.{still_valid_iff}
use substrate_node_template.Runtime.{example_config}
use substrate_node_template.Runtime.Pallets.{
  RuntimeCall, template_module, ocw_demo, ocw_example, RuntimeState, RuntimeTag, tagged, block_tag,
  validate_unsigned,
}
use substrate_node_template.Runtime.Chain.{Run}
use substrate_node_template.Runtime.Chain.Oracle.{Run-oracle, oracle_calls, oracle_validates}

-- The calls of pallet-ocw.
abbrev pub IsOcwCall : {Public Signature : Type 0} → RuntimeCall Public Signature → Type 0
IsOcwCall (template_module c) = ⊥
IsOcwCall (ocw_demo c) = Unit
IsOcwCall (ocw_example c) = ⊥

module _ (sys : System) {Public Signature : Type 0} (verify_ocw : Payload Public → Signature → Bool)
    (verify_example : PricePayload Public → Signature → Bool) (law : IsLawful sys) where
  open sys use {AccountId}

  -- An unsigned call that is valid in a state of the runtime is valid in a later one exactly if it is
  -- one of pallet-ocw or no unsigned call of the oracle has been accepted in between, if the block
  -- number has room for the oracle's interval and no origin is both signed and unsigned. So an
  -- accepted call of pallet-ocw can be accepted again and again, and one of the oracle cannot.
  pub unsigned_valid_iff :
      {s t : RuntimeState AccountId} {l : List (RuntimeCall Public Signature)}
      {v : ValidTransaction RuntimeTag} (c : RuntimeCall Public Signature)
      → t.example.block_number + 3 < u32_values
      → validate_unsigned sys verify_ocw verify_example s c ≡ ok v
      → Run sys verify_ocw verify_example s l t
      → ((w : ValidTransaction RuntimeTag) × (validate_unsigned sys verify_ocw verify_example t c
            ≡ ok w))
        ↔ (IsOcwCall c ⊎ (oracle_calls l ≡ 0))
  unfolding validate_unsigned
  unsigned_valid_iff (template_module c) fit h r = absurd (ground arith)
  unsigned_valid_iff {v = v} (ocw_demo c) fit h r = ((λ k. inl tt), (λ k. (v, h)))
  unsigned_valid_iff {s} {t} {l} (ocw_example c) fit h r =
      let (_, valid) = oracle_validates sys verify_ocw verify_example c s h in
      let pallet =
        still_valid_iff sys example_config verify_example law c (omega arith) fit valid
          (Run-oracle sys verify_ocw verify_example r) in
      (
        (λ k. inr (pallet.0 (oracle_validates sys verify_ocw verify_example c t k.1))),
        (λ k. elim k [
          | inl other ↦ absurd other
          | inr nothing ↦ let (_, again) = pallet.1 nothing in (_, ap (tagged block_tag) again)
        ]),
      )
