-- ===== src/ExampleOcw/Worker/Success.antt =====
-- When the worker that sends for all accounts succeeds.
use substrate_node_template.Common.{
  ℕ, ◌≤◌, ◌≡◌, ◌↔◌, refl, false, Option, none, some, List, [], ◌∷◌, arith, Result, ok, err, All,
  ltb, Bool-cases, inl, inr,
}
use substrate_node_template.Offchain.{Host, HttpError, Submitter}
use substrate_node_template.ExampleOcw.Types.{State, Call, PricePayload}
use substrate_node_template.ExampleOcw.Parse.{LiteJson}
use substrate_node_template.ExampleOcw.Fetch.{fetch_price}
use substrate_node_template.ExampleOcw.Worker.{
  fetched, all_submitted, price_payload, fetch_price_and_send_unsigned_for_all_accounts,
}

all_submitted_iff :
    {Account : Type 0} (results : List (Account × Result (Unit {0}) (Unit {0})))
    → (all_submitted results ≡ ok tt) ↔ All (λ r. r.1 ≡ ok tt) results
unfolding all_submitted
all_submitted_iff [] = ((λ _. tt), (λ _. refl))
all_submitted_iff ((a, ok x) ∷ rest) =
    let (to, from) = all_submitted_iff rest in ((λ h. (refl, to h)), (λ h. from h.1))
all_submitted_iff ((a, err e) ∷ rest) =
    ((λ h. absurd (ground arith)), (λ h. absurd (ground (arith, h))))

module _ {Public Signature : Type 0} (host : Host) (json : LiteJson)
    (submitter : Submitter
      (Host.World host)
      Public
      Signature
      (Call Public Signature)
      (PricePayload Public)) where
  open host use {World}
  open submitter use {Account, send_unsigned_all}

  -- What the submission for all accounts returns and leaves.
  abbrev pub submission : ℕ → ℕ → World → List (Account × Result (Unit {0}) (Unit {0})) × World
  submission block_number price w =
      send_unsigned_all (price_payload host json submitter block_number price)
        Call.submit_price_unsigned_with_signed_payload w

  abbrev pub Delivers : ℕ → World → World → Type 0
  Delivers block_number w w' =
      (price : ℕ) × (w₁ : World) × (fetch_price host json w ≡ some (ok price, w₁))
      × All (λ r. r.1 ≡ ok tt) (submission block_number price w₁).0
      × ((submission block_number price w₁).1 ≡ w')

  after_due :
      {AccountId : Type 0} (block_number : ℕ) (s : State AccountId) (w w' : World)
      → ltb block_number s.next_unsigned_at ≡ false
      → (q : Option (Result HttpError ℕ × World)) → fetch_price host json w ≡ q
      → fetch_price_and_send_unsigned_for_all_accounts host json submitter block_number s w
        ≡ some (ok tt, w')
      → Delivers block_number w w'
  unfolding fetch_price_and_send_unsigned_for_all_accounts fetched
  after_due block_number s w w' due none at h = absurd (ground arith)
  after_due block_number s w w' due (some (err e, w₁)) at h = absurd (ground arith)
  after_due block_number s w w' due (some (ok price, w₁)) at h = (
    price,
    w₁,
    at,
    (all_submitted_iff (submission block_number price w₁).0).0 (ground arith),
    ground arith,
  )

  -- A run that sends for all accounts succeeds exactly when the block is not before the next accepted
  -- one, a price is fetched, and every account's transaction for that price is submitted; the world
  -- is then the one that the submission leaves.
  pub send_all_ok_iff :
      {AccountId : Type 0} (block_number : ℕ) (s : State AccountId) (w w' : World)
      → (fetch_price_and_send_unsigned_for_all_accounts host json submitter block_number s w
          ≡ some (ok tt, w'))
        ↔ ((s.next_unsigned_at ≤ block_number) × Delivers block_number w w')
  unfolding fetch_price_and_send_unsigned_for_all_accounts fetched
  send_all_ok_iff block_number s w w' = (
    (λ h. elim (Bool-cases (ltb block_number s.next_unsigned_at)) [
      | inl early ↦ absurd (ground arith)
      | inr due ↦ (ground arith, after_due block_number s w w' due (fetch_price host json w) refl h)
    ]),
    (λ h.
        let (due, delivers) = h in
        let (price, w₁, at, submitted, kept) = delivers in
        let good = (all_submitted_iff (submission block_number price w₁).0).1 submitted in
        ground arith),
  )
