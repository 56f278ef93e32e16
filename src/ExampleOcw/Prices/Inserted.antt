-- ===== src/ExampleOcw/Prices/Inserted.antt =====
-- The list that a new price leaves: every write of `add_price` is in bounds.
use substrate_node_template.Common.{
  ℕ, ◌%◌, ◌≡◌, some, List, [], ◌∷◌, ◌++◌, length, set, ltb, if◌then◌else◌, arith,
}
use substrate_node_template.ExampleOcw.Prices.{insert_price}

-- A new price goes to the end of a list with room, and else to the slot of its remainder by 64.
unfoldable pub with_price : List ℕ → ℕ → List ℕ
with_price prices price =
    if ltb (length prices) 64 then prices ++ (price ∷ []) else set prices (price % 64) price

pub insert_price-with_price :
    (prices : List ℕ) (price : ℕ) → insert_price prices price ≡ some (with_price prices price)
unfolding insert_price with_price
insert_price-with_price prices price = ground arith
