-- ===== src/ExampleOcw/Prices/Slots.antt =====
-- Which price a new one replaces once the list is full.
use substrate_node_template.Common.{
  ℕ, suc, ◌%◌, ◌≤◌, ◌<◌, ◌≡◌, ap, some, List, [], ◌∷◌, ◌++◌, zero, ◌∙◌, arith, length, set,
  get_elem?, length-set, set-set, le→ltb, lt→ltb, ◌==◌, if◌then◌else◌,
}
use substrate_node_template.ExampleOcw.Prices.{max_len, insert_price}
use substrate_node_template.ExampleOcw.Prices.Inserted.{with_price, insert_price-with_price}

with_price_full :
    (prices : List ℕ) (price : ℕ)
    → max_len ≤ length prices
    → with_price prices price ≡ set prices (price % max_len) price
unfolding with_price
with_price_full prices price full = rw (le→ltb _ _ full)

-- Into a list of fewer than 64 prices a new price goes at the end.
pub with_price_room :
    (prices : List ℕ) (price : ℕ)
    → length prices < max_len
    → with_price prices price ≡ prices ++ (price ∷ [])
unfolding with_price
with_price_room prices price room = rw (lt→ltb _ _ room)

get_elem?-set :
    (xs : List ℕ) (i j v : ℕ)
    → i < length xs
    → get_elem? (set xs i v) j ≡ (if i == j then some v else get_elem? xs j)
get_elem?-set [] i j v h = elim h [ ]
get_elem?-set (x ∷ xs) zero zero v h = ground arith
get_elem?-set (x ∷ xs) zero (suc j) v h = ground arith
get_elem?-set (x ∷ xs) (suc i) zero v h = ground arith
get_elem?-set (x ∷ xs) (suc i) (suc j) v h = get_elem?-set xs i j v (omega arith) ∙ ground arith

-- A list of 64 prices or more keeps its length when a price is added. The price goes to the slot
-- that its remainder by 64 names, and every other slot keeps its price.
pub with_price-slots :
    (prices : List ℕ) (price i : ℕ)
    → max_len ≤ length prices
    → (length (with_price prices price) ≡ length prices)
      × (get_elem? (with_price prices price) i
          ≡ (if price % max_len == i then some price else get_elem? prices i))
with_price-slots prices price i full = rw (with_price_full prices price full) (
  length-set prices (price % max_len) price,
  get_elem?-set prices (price % max_len) i price (omega arith),
)

with_price_evicts :
    (prices : List ℕ) (p q : ℕ)
    → max_len ≤ length prices
    → p % max_len ≡ q % max_len
    → with_price (with_price prices p) q ≡ with_price prices q
with_price_evicts prices p q full same =
    let full' : max_len ≤ length (set prices (p % max_len) p) =
      omega (arith, length-set prices (p % max_len) p) in
    rw (
      with_price_full prices p full,
      with_price_full prices q full,
      with_price_full _ q full',
      same,
      set-set,
    )

-- On a list of 64 prices or more, a price that leaves the same remainder by 64 as the price just
-- added replaces it: neither write panics, and the list is then as if the first of the two had never
-- come.
pub insert_price_evicts :
    (prices : List ℕ) (p q : ℕ)
    → max_len ≤ length prices
    → p % max_len ≡ q % max_len
    → (one : List ℕ) × (two : List ℕ) × (insert_price prices p ≡ some one)
      × (insert_price one q ≡ some two)
      × (insert_price prices q ≡ some two)
insert_price_evicts prices p q full same = (
  with_price prices p,
  with_price prices q,
  insert_price-with_price prices p,
  insert_price-with_price (with_price prices p) q
      ∙ ap (λ l. some l) (with_price_evicts prices p q full same),
  insert_price-with_price prices q,
)
