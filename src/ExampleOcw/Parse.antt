-- ===== src/ExampleOcw/Parse.antt =====
-- `parse_price`. The JSON parser is the crate `lite_json`, given by a record: its parser and the
-- parts of its values that the code looks at.
pub mod Cents
pub mod Panic
pub mod Print
use substrate_node_template.Common.{
  ℕ, zero, suc, ◌+◌, ◌*◌, ◌/◌, ◌%◌, ◌^◌, ◌<◌, Bool, true, false, ◌&&◌, Option, none, some, List, [],
  ◌∷◌, ◌==◌, if◌then◌else◌, checked_sub, as_u32, u64_values, ℤ, int_as_u32,
}

pub record LiteJson : Type 1 where
  pub JsonValue : Type 0
  pub NumberValue : Type 0
  -- parse_json(text).ok()
  pub parse_json : List ℕ → Option JsonValue
  -- `JsonValue::Object(obj)`, its keys as code points, and `JsonValue::Number(number)`
  pub as_object : JsonValue → Option (List (List ℕ × JsonValue))
  pub as_number : JsonValue → Option NumberValue
  -- the fields of `NumberValue`
  pub integer : NumberValue → ℤ
  pub fraction : NumberValue → ℕ
  pub fraction_length : NumberValue → ℕ
  -- `fraction` is a u64.
  pub fraction_fits : (n : NumberValue) → fraction n < u64_values

-- `k.iter().copied().eq(…)`
unfoldable pub same_chars : List ℕ → List ℕ → Bool
same_chars [] [] = true
same_chars (a ∷ k) (b ∷ l) = a == b && same_chars k l
same_chars k l = false

-- "USD".chars()
abbrev pub usd : List ℕ
usd = b'U' ∷ b'S' ∷ b'D' ∷ []

-- The value of the first entry with the key "USD".
unfoldable pub find_usd : {V : Type 0} → List (List ℕ × V) → Option V
unfolding same_chars
find_usd [] = none
find_usd ((k, v) ∷ obj) = let rest = find_usd obj in if same_chars k usd then some v else rest

-- `10_u64.pow(exp)`, which wraps in a release build
abbrev pub pow10 : ℕ → ℕ
pow10 e = 10 ^ e % u64_values

abbrev or_zero : Option ℕ → ℕ
or_zero none = 0
or_zero (some n) = n

module _ (json : LiteJson) where
  open json use {
    JsonValue, NumberValue, parse_json, as_object, as_number, integer, fraction, fraction_length,
  }

  abbrev usd_of : Option (List (List ℕ × JsonValue)) → Option NumberValue
  usd_of none = none
  usd_of (some obj) = elim (find_usd obj) [ none ↦ none | some v ↦ as_number v ]

  -- The number that the text has under "USD".
  unfoldable pub usd_number : List ℕ → Option NumberValue
  unfolding find_usd
  usd_number price_str = elim (parse_json price_str) [ none ↦ none | some v ↦ usd_of (as_object v) ]

  -- `price.fraction_length.checked_sub(2).unwrap_or(0)`
  abbrev pub exponent : NumberValue → ℕ
  exponent price = or_zero (checked_sub (fraction_length price) 2)

  -- The last two lines of `parse_price`: `none` is the panic of a division by 0. The sum and the
  -- product are those of u32, which wrap in a release build.
  unfoldable pub to_cents : NumberValue → Option ℕ
  to_cents price =
      if pow10 (exponent price) == 0
      then none
      else some (
          as_u32 (
            as_u32 (int_as_u32 (integer price) * 100)
            + as_u32 (fraction price / pow10 (exponent price))))

  -- The outer `none` is a panic, the inner one the code's `None`.
  unfoldable pub parse_price : List ℕ → Option (Option ℕ)
  parse_price price_str = elim (usd_number price_str) [
    | none ↦ some none
    | some price ↦ elim (to_cents price) [ none ↦ none | some cents ↦ some (some cents) ]
  ]
