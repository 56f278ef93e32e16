-- ===== src/ExampleOcw/Parse/Cents.antt =====
-- When the parsed price is the price in cents, and when it is not.
use native.Mathlib.Nat.{mod-eq_of_lt, pow-suc}
use substrate_node_template.Common.{
  ℕ, zero, suc, ◌+◌, ◌-◌, ◌*◌, ◌/◌, ◌^◌, ◌≤◌, ◌<◌, ◌≡◌, some, List, arith,
}
use substrate_node_template.ExampleOcw.Parse.{
  LiteJson, to_cents, usd_number, parse_price, pow10, exponent,
}

-- The price `n.f` in cents, rounded down: `l` is the number of digits after the point.
abbrev pub cents : ℕ → ℕ → ℕ → ℕ
cents n f l = n * 100 + f * 100 / 10 ^ l

pub pow-pos : (e : ℕ) → 0 < 10 ^ e
pow-pos zero = omega arith
pow-pos (suc e) = rw pow-suc (omega (arith, pow-pos e))

pow-le : (e k : ℕ) → e ≤ k → 10 ^ e ≤ 10 ^ k
pow-le zero k h = omega (arith, pow-pos k)
pow-le (suc e) zero h = elim h [ ]
pow-le (suc e) (suc k) h = rw (pow-suc, pow-suc) (omega (arith, pow-le e k (omega arith)))

pub pow10_exact : (e : ℕ) → e ≤ 19 → pow10 e ≡ 10 ^ e
pow10_exact e h = mod-eq_of_lt (omega (arith, pow-le e 19 h))

module _ (json : LiteJson) where
  open json use {NumberValue, integer, fraction, fraction_length}

  pub exponent_of :
      (num : NumberValue) (l : ℕ) → fraction_length num ≡ l → exponent json num ≡ l - 2
  exponent_of num l e = rw e (ground arith)

  pub parse_price_found :
      (price_str : List ℕ) (num : NumberValue) {c : ℕ}
      → usd_number json price_str ≡ some num
      → to_cents json num ≡ some c
      → parse_price json price_str ≡ some (some c)
  unfolding parse_price
  parse_price_found price_str num found e = ground arith
