-- ===== src/ExampleOcw/Prices.antt =====
-- `average_price` and `add_price`: the list of recent prices and their mean.
pub mod Inserted
pub mod Bounds
pub mod Mean
pub mod Slots
pub mod Bag
use mathlib.Core.List.{foldl}
use substrate_node_template.Common.{
  ℕ, ◌%◌, ◌/◌, Option, none, some, List, [], ◌∷◌, ◌++◌, length, set, ltb, if◌then◌else◌, as_u32,
  saturating_add32,
}
use substrate_node_template.ExampleOcw.Types.{State, new_price}

abbrev pub max_len : ℕ
max_len = 64

-- The mean of a list of prices, `None` of an empty one. (`len` is at most 64, so `as u32` is exact
-- and the divisor is not 0.)
unfoldable pub mean : List ℕ → Option ℕ
mean [] = none
mean (x ∷ xs) = some (foldl saturating_add32 0 (x ∷ xs) / as_u32 (length (x ∷ xs)))

unfoldable pub average_price : {AccountId : Type 0} → State AccountId → Option ℕ
average_price s = mean s.prices

-- `prices[i] = price`, which panics where the index is out of bounds.
abbrev pub write_at : List ℕ → ℕ → ℕ → Option (List ℕ)
write_at prices i price = if ltb i (length prices) then some (set prices i price) else none

-- The closure that `add_price` gives to `Prices::mutate`: `none` is a panic.
unfoldable pub insert_price : List ℕ → ℕ → Option (List ℕ)
insert_price prices price =
    if ltb (length prices) max_len
    then some (prices ++ (price ∷ []))
    else write_at prices (price % max_len) price

-- `none` is a panic: of the write, or of `expect` on the average of an empty list.
unfoldable pub add_price :
    {AccountId : Type 0} → AccountId → ℕ → State AccountId → Option (State AccountId)
unfolding insert_price average_price
add_price who price s = elim (insert_price s.prices price) [
  | none ↦ none
  | some prices ↦ elim (average_price (record s { prices = prices })) [
    | none ↦ none
    | some _ ↦ some (record s { prices = prices; events = s.events ++ (new_price price who ∷ []) })
  ]
]
