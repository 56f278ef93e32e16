-- ===== src/ExampleOcw/Parse/Panic.antt =====
-- When `parse_price` panics: where the power of ten that it divides by has wrapped around to 0.
use native.Mathlib.Nat.{pow-suc}
use substrate_node_template.Common.{
  ℕ, zero, suc, ◌+◌, ◌-◌, ◌*◌, ◌^◌, ◌≤◌, ◌<◌, ◌≡◌, ◌≢◌, ◌↔◌, refl, sym, ap, ◌∙◌, ltb, Bool, true,
  not, ◌&&◌, ◌==◌, none, some, List, arith, inl, inr, Option-cases, Bool-cases, ==_iff,
}
use substrate_node_template.ExampleOcw.Parse.{
  LiteJson, to_cents, usd_number, parse_price, pow10, exponent,
}

-- No power of ten below the `n`th wraps around to 0.
nonzero_below : ℕ → Bool
nonzero_below zero = true
nonzero_below (suc n) = let rest = nonzero_below n in not (pow10 n == 0) && rest

nonzero_below_lem : (n e : ℕ) → nonzero_below n ≡ true → e < n → pow10 e ≢ 0
unfolding nonzero_below
nonzero_below_lem zero e all h = elim h [ ]
nonzero_below_lem (suc n) e all h = λ wrapped. elim (Bool-cases (e == n)) [
  | inl same ↦ let here : e ≡ n = (==_iff e n).0 same in absurd (ground arith)
  | inr other ↦
      let rest : nonzero_below n ≡ true = ground arith in
      let below : e < n = ground arith in nonzero_below_lem n e rest below wrapped
]

low : nonzero_below 64 ≡ true
unfolding nonzero_below
low = refl

high : (k : ℕ) → pow10 (64 + k) ≡ 0
high zero = refl
high (suc k) =
    let step : 10 ^ (64 + suc k) ≡ 10 ^ (64 + k) * 10 =
      ap (λ m. 10 ^ m) (omega arith) ∙ pow-suc 10 (64 + k) in
    omega (arith, high k, step)

-- The power of ten wraps around to 0 exactly from the 64th on.
pub pow10-zero_iff : (e : ℕ) → (pow10 e ≡ 0) ↔ (64 ≤ e)
pow10-zero_iff e = (
  (λ wrapped. elim (Bool-cases (ltb e 64)) [
    | inl below ↦ absurd (nonzero_below_lem 64 e low (ground arith) wrapped)
    | inr above ↦ ground arith
  ]),
  (λ h. let same : 64 + (e - 64) ≡ e = omega arith in ap pow10 (sym same) ∙ high (e - 64)),
)

module _ (json : LiteJson) where
  open json use {NumberValue, fraction_length}

  to_cents_panics_iff :
      (num : NumberValue) → (to_cents json num ≡ none) ↔ (66 ≤ fraction_length num)
  unfolding to_cents
  to_cents_panics_iff num = (
    (λ e.
        let wrapped : pow10 (exponent json num) ≡ 0 =
          ground (arith, ==_iff (pow10 (exponent json num)) 0) in
        ground (arith, (pow10-zero_iff (exponent json num)).0 wrapped)),
    (λ h. ground (arith, (pow10-zero_iff (exponent json num)).1 (ground arith))),
  )

  -- `parse_price` panics exactly for a text whose number under "USD" has 66 digits or more after the
  -- point.
  pub parse_price_panics_iff :
      (price_str : List ℕ)
      → (parse_price json price_str ≡ none) ↔ (
          (num : NumberValue) × (usd_number json price_str ≡ some num) × (66 ≤ fraction_length num))
  unfolding parse_price
  parse_price_panics_iff price_str = elim (Option-cases (usd_number json price_str)) [
    | inl missing ↦ ((λ e. absurd (ground arith)), (λ h. absurd (ground (arith, h.2))))
    | inr (num, found) ↦ (
      (λ e. (num, found, ground (arith, (to_cents_panics_iff num).0))),
      (λ h.
          let (other, found', far) = h in
          let panic : to_cents json other ≡ none = (to_cents_panics_iff other).1 far in
          ground arith),
    )
  ]
