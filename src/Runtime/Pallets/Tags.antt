-- ===== src/Runtime/Pallets/Tags.antt =====
-- Which unsigned transactions keep each other out of the pool: those that provide the same tag.
use Prim.Native.String.{len}
use substrate_node_template.Common.{
  ℕ, ◌≡◌, ap, sym, ◌∙◌, ◌↔◌, refl, Option, none, some, Bool, ok, arith, String,
}
use substrate_node_template.Frame.{System, ValidTransaction}
use substrate_node_template.Ocw.Types as OcwTypes
use substrate_node_template.Ocw.Types.{Payload}
use substrate_node_template.Ocw.Validity as OcwValidity
use substrate_node_template.ExampleOcw.Types as ExampleTypes
use substrate_node_template.ExampleOcw.Types.{PricePayload}
use substrate_node_template.ExampleOcw.Validity as ExampleValidity
use substrate_node_template.ExampleOcw.Validity.Window.{valid_of_call}
use substrate_node_template.Runtime.{example_config}
use substrate_node_template.Runtime.Pallets.{
  RuntimeCall, template_module, ocw_demo, ocw_example, RuntimeState, RuntimeTag, tagged_ok,
  text_tag, block_tag, validate_unsigned,
}

-- The places for unsigned transactions in the pool: one for the oracle, and one for each unsigned call
-- of pallet-ocw.
pub data Place : Type 0 where
  oracle_price plain_number signed_number : Place

abbrev pub place : {Public Signature : Type 0} → RuntimeCall Public Signature → Option Place
place (template_module c) = none
place (ocw_demo (OcwTypes.Call.submit_number_signed n)) = none
place (ocw_demo (OcwTypes.Call.submit_number_unsigned n)) = some plain_number
place (ocw_demo (OcwTypes.Call.submit_number_unsigned_with_signed_payload p g)) = some signed_number
place (ocw_example (ExampleTypes.Call.submit_price price)) = none
place (ocw_example c) = some oracle_price

abbrev prefix_of : Place → String
prefix_of oracle_price = "ExampleOffchainWorker"
prefix_of plain_number = "ocw-demo"
prefix_of signed_number = "ocw-demo"

abbrev tag_of : ℕ → Place → RuntimeTag
tag_of next oracle_price = block_tag next
tag_of next plain_number = text_tag "submit_number_unsigned"
tag_of next signed_number = text_tag "submit_number_unsigned_with_signed_payload"

abbrev text_of : RuntimeTag → String
text_of (text_tag t) = t
text_of (block_tag n) = ""

two_prefixes : ◌≡◌ {A = String} "ocw-demo" "ExampleOffchainWorker" → ⊥
two_prefixes h = omega (arith, ap len h)

two_tags :
    ◌≡◌ {A = String} "submit_number_unsigned" "submit_number_unsigned_with_signed_payload" → ⊥
two_tags h = omega (arith, ap len h)

-- Prefix and tag together name the place.
tag_of_inj :
    (next : ℕ) (p q : Place) → prefix_of p ≡ prefix_of q → tag_of next p ≡ tag_of next q → p ≡ q
tag_of_inj next oracle_price oracle_price h k = refl
tag_of_inj next plain_number plain_number h k = refl
tag_of_inj next signed_number signed_number h k = refl
tag_of_inj next oracle_price q h k = absurd (two_prefixes (sym h))
tag_of_inj next p oracle_price h k = absurd (two_prefixes h)
tag_of_inj next plain_number signed_number h k = absurd (two_tags (ap text_of k))
tag_of_inj next signed_number plain_number h k = absurd (two_tags (sym (ap text_of k)))

module _ (sys : System) {Public Signature : Type 0} (verify_ocw : Payload Public → Signature → Bool)
    (verify_example : PricePayload Public → Signature → Bool) where
  open sys use {AccountId}

  abbrev Tagged :
      RuntimeState AccountId → RuntimeCall Public Signature → ValidTransaction RuntimeTag → Type 0
  Tagged s c v =
      (p : Place) × (place c ≡ some p)
      × (v.tag_prefix ≡ prefix_of p)
      × (v.provides ≡ tag_of s.example.next_unsigned_at p)

  oracle_tags :
      (s : RuntimeState AccountId) (c : ExampleTypes.Call Public Signature)
      {v : ValidTransaction RuntimeTag}
      → place (ocw_example c) ≡ some oracle_price
      → validate_unsigned sys verify_ocw verify_example s (ocw_example c) ≡ ok v
      → Tagged s (ocw_example c) v
  unfolding validate_unsigned ExampleValidity.valid_transaction
  oracle_tags s c at h =
      let (w, valid, prefix, provided) = tagged_ok block_tag _ h in
      let built = valid_of_call example_config verify_example s.example c valid in
      (
        oracle_price,
        at,
        prefix ∙ ap (λ x. x.tag_prefix) built,
        provided ∙ ap (λ x. block_tag x.provides) built,
      )

  valid_tags :
      (s : RuntimeState AccountId) (c : RuntimeCall Public Signature)
      {v : ValidTransaction RuntimeTag}
      → validate_unsigned sys verify_ocw verify_example s c ≡ ok v
      → Tagged s c v
  unfolding validate_unsigned OcwValidity.validate_unsigned ExampleValidity.validate_unsigned
  valid_tags s (template_module c) h = absurd (ground arith)
  valid_tags s (ocw_demo (OcwTypes.Call.submit_number_signed n)) h = absurd (ground arith)
  valid_tags s (ocw_demo (OcwTypes.Call.submit_number_unsigned n)) h =
      (plain_number, refl, ground arith, ground arith)
  valid_tags s (ocw_demo (OcwTypes.Call.submit_number_unsigned_with_signed_payload p g)) h =
      (signed_number, refl, ground arith, ground arith)
  valid_tags s (ocw_example (ExampleTypes.Call.submit_price price)) h = absurd (ground arith)
  valid_tags s (ocw_example (ExampleTypes.Call.submit_price_unsigned b price)) h =
      oracle_tags s (ExampleTypes.Call.submit_price_unsigned b price) refl h
  valid_tags s (ocw_example (ExampleTypes.Call.submit_price_unsigned_with_signed_payload p g)) h =
      oracle_tags s (ExampleTypes.Call.submit_price_unsigned_with_signed_payload p g) refl h

  -- Of two unsigned transactions that are valid in the same state of the runtime, one keeps the other
  -- out of the pool, by the same prefix and the same tag, exactly if they have the same place: the
  -- oracle has one for all its unsigned transactions, pallet-ocw one for each of its two unsigned
  -- calls.
  pub same_tag_iff :
      (s : RuntimeState AccountId) (c d : RuntimeCall Public Signature)
      {v w : ValidTransaction RuntimeTag}
      → validate_unsigned sys verify_ocw verify_example s c ≡ ok v
      → validate_unsigned sys verify_ocw verify_example s d ≡ ok w
      → ((v.tag_prefix ≡ w.tag_prefix) × (v.provides ≡ w.provides)) ↔ (place c ≡ place d)
  same_tag_iff s c d h k =
      let next = s.example.next_unsigned_at in
      let (p, at, prefix, tag) = valid_tags s c h in
      let (q, at', prefix', tag') = valid_tags s d k in
      (
        (λ e.
            at
            ∙ ap some (tag_of_inj next p q (sym prefix ∙ e.0 ∙ prefix') (sym tag ∙ e.1 ∙ tag'))
            ∙ sym at'),
        (λ e.
            let same : p ≡ q = ground arith in
            (prefix ∙ ap prefix_of same ∙ sym prefix', tag ∙ ap (tag_of next) same ∙ sym tag')),
      )
