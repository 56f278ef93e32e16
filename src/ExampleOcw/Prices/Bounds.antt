-- ===== src/ExampleOcw/Prices/Bounds.antt =====
-- The bound on the list of prices, and what adding a price does to it.
use substrate_node_template.Common.{
  ℕ, ◌≤◌, ◌<◌, ◌≡◌, refl, inl, inr, some, List, [], ◌∷◌, ◌++◌, arith, length, All, length-append,
  length-set, All-append, All-set, Bool-cases, ltb, u32_values, ◌%◌,
}
use substrate_node_template.ExampleOcw.Types.{State, new_price}
use substrate_node_template.ExampleOcw.Prices.{max_len, mean, average_price, add_price}
use substrate_node_template.ExampleOcw.Prices.Inserted.{with_price, insert_price-with_price}

-- At most 64 prices, each a u32.
pub record IsBounded (prices : List ℕ) : Type 0 where
  pub short : length prices ≤ max_len
  pub words : All (λ x. x < u32_values) prices

pub length-with_price-le :
    (prices : List ℕ) (price : ℕ)
    → length prices ≤ max_len
    → length (with_price prices price) ≤ max_len
unfolding with_price
length-with_price-le prices price h =
    ground (arith, length-append prices (price ∷ []), length-set prices (price % max_len) price)

pub with_price-words :
    (prices : List ℕ) (price : ℕ)
    → price < u32_values
    → All (λ x. x < u32_values) prices
    → All (λ x. x < u32_values) (with_price prices price)
unfolding with_price
with_price-words prices price hp h = elim (Bool-cases (ltb (length prices) max_len)) [
  | inl room ↦ rw room (All-append _ prices (price ∷ []) h (hp, tt))
  | inr full ↦ rw full (All-set _ prices (price % max_len) price h hp)
]

pub with_price-IsBounded :
    (prices : List ℕ) (price : ℕ)
    → price < u32_values
    → IsBounded prices
    → IsBounded (with_price prices price)
with_price-IsBounded prices price hp h = record {
  short = length-with_price-le prices price h.short;
  words = with_price-words prices price hp h.words;
}

length-with_price-pos : (prices : List ℕ) (price : ℕ) → 0 < length (with_price prices price)
unfolding with_price
length-with_price-pos prices price =
    ground (arith, length-append prices (price ∷ []), length-set prices (price % max_len) price)

mean-some : (xs : List ℕ) → 0 < length xs → (m : ℕ) × (mean xs ≡ some m)
unfolding mean
mean-some [] h = elim h [ ]
mean-some (x ∷ xs) h = (_, refl)

-- The state after `add_price`.
abbrev pub added : {AccountId : Type 0} → AccountId → ℕ → State AccountId → State AccountId
added who price s = record s {
  prices = with_price s.prices price;
  events = s.events ++ (new_price price who ∷ []);
}

pub add_price-added :
    {AccountId : Type 0} (who : AccountId) (price : ℕ) (s : State AccountId)
    → add_price who price s ≡ some (added who price s)
unfolding add_price average_price
add_price-added who price s =
    let (m, e) = mean-some (with_price s.prices price) (length-with_price-pos s.prices price) in
    ground (arith, insert_price-with_price s.prices price, e)
