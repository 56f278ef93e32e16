-- ===== src/ExampleOcw/Parse/Print.antt =====
-- Reading back a price in cents that was written with two decimals or more.
use native.Mathlib.Nat.{mul-div_cancel}
use substrate_node_template.Common.{
  ℕ, ◌+◌, ◌*◌, ◌/◌, ◌%◌, ◌^◌, ◌≤◌, ◌<◌, ◌≡◌, ap, ◌∙◌, some, List, arith, u32_values, pos,
}
use substrate_node_template.ExampleOcw.Parse.{LiteJson, exponent, to_cents, usd_number, parse_price}
use substrate_node_template.ExampleOcw.Parse.Cents.{
  pow10_exact, pow-pos, exponent_of, parse_price_found,
}

-- The number that writes `c` cents with two decimals and then `zeros` zeros.
abbrev pub IsWritten : (json : LiteJson) → LiteJson.NumberValue json → ℕ → ℕ → Type 0
IsWritten json num c zeros =
    (LiteJson.integer json num ≡ pos (c / 100))
    × (LiteJson.fraction json num ≡ c % 100 * 10 ^ zeros)
    × (LiteJson.fraction_length json num ≡ zeros + 2)

module _ (json : LiteJson) where
  open json use {NumberValue, fraction}

  to_cents_written :
      (num : NumberValue) (c zeros : ℕ)
      → c < u32_values
      → zeros ≤ 17
      → IsWritten json num c zeros
      → to_cents json num ≡ some c
  unfolding to_cents
  to_cents_written num c zeros word short (whole, digits, places) =
      let divided : fraction num / 10 ^ zeros ≡ c % 100 =
        ap (λ f. f / 10 ^ zeros) digits ∙ mul-div_cancel (c % 100) (pow-pos zeros) in
      let cut : exponent json num ≡ zeros = exponent_of json num (zeros + 2) places ∙ omega arith in
      rw (cut, whole, pow10_exact zeros (omega arith), divided) (ground (arith, pow-pos zeros))

  -- A price in cents that is a u32, written under "USD" with two decimals and at most 17 zeros after
  -- them, for which the u64 of the fraction has room whatever the price, is read back as it was.
  pub parse_price_written :
      (price_str : List ℕ) (num : NumberValue) (c zeros : ℕ)
      → usd_number json price_str ≡ some num
      → c < u32_values
      → zeros ≤ 17
      → IsWritten json num c zeros
      → parse_price json price_str ≡ some (some c)
  parse_price_written price_str num c zeros found word short h =
      parse_price_found json price_str num found (to_cents_written num c zeros word short h)
