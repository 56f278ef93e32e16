-- ===== src/Tests/Oracle.antt =====
-- pallet-example-offchain-worker on the chain: runs, and the theorems at concrete inputs.
use substrate_node_template.Common.{
  min, ◌+◌, ◌-◌, ℕ, zero, suc, ◌/◌, ◌≤◌, ◌≡◌, ◌↔◌, refl, Bool, none, some, List, [], ◌∷◌, ok, err,
  ◌==◌, arith, u64_values, get_elem?,
}
use substrate_node_template.Frame.{done, ValidTransaction, InvalidTransaction}
use substrate_node_template.Runtime.{example_config}
use substrate_node_template.ExampleOcw.Types.{State, Call, PricePayload, new_price}
use substrate_node_template.ExampleOcw.Prices.{insert_price, mean, average_price, add_price}
use substrate_node_template.ExampleOcw.Prices.Inserted.{with_price}
use mathlib.Mathlib.Data.Multiset.{of_list}
use substrate_node_template.ExampleOcw.Prices.Bag.{Takes, average_of, add_price-Takes}
use substrate_node_template.ExampleOcw.Prices.Mean.{mean-eq-min}
use substrate_node_template.ExampleOcw.Prices.Slots.{insert_price_evicts}
use substrate_node_template.ExampleOcw.Calls.{dispatch}
use substrate_node_template.ExampleOcw.Validity.{validate_unsigned, valid_transaction}
use substrate_node_template.ExampleOcw.Validity.Window.{IsAcceptable, validate_unsigned_iff}
use substrate_node_template.ExampleOcw.Validity.Priority.{priority_by_distance}
use substrate_node_template.ExampleOcw.Chain.{start, next_block}
use substrate_node_template.ExampleOcw.Chain.Spacing.{unsigned_cooldown}
use substrate_node_template.Tests.Mock.{mock_system, mock_system-IsLawful}

-- A signature is good if it is the public key.
abbrev verify : PricePayload ℕ → ℕ → Bool
verify payload signature = payload.public == signature

abbrev C : Type 0
C = Call ℕ ℕ

abbrev state_at : List ℕ → ℕ → ℕ → State ℕ
state_at prices next block = record {
  prices = prices;
  next_unsigned_at = next;
  block_number = block;
  events = [];
}

abbrev s₀ : State ℕ
s₀ = state_at [] 0 1

abbrev first : C
first = Call.submit_price_unsigned 1 27

abbrev second : C
second =
    Call.submit_price_unsigned_with_signed_payload
      (record { block_number = 4; price = 43; public = 7 }) 7

abbrev s₁ : State ℕ
s₁ = record {
  prices = 27 ∷ [];
  next_unsigned_at = 4;
  block_number = 1;
  events = new_price 27 0 ∷ [];
}

abbrev s₂ : State ℕ
s₂ = record {
  prices = 27 ∷ 43 ∷ [];
  next_unsigned_at = 7;
  block_number = 4;
  events = new_price 27 0 ∷ new_price 43 0 ∷ [];
}

abbrev s₃ : State ℕ
s₃ = record s₂ { block_number = 7 }

first_valid :
    validate_unsigned example_config verify s₀ first ≡ ok (valid_transaction example_config s₀ 27)
unfolding validate_unsigned
first_valid = refl

first_applied : dispatch mock_system example_config first none s₀ ≡ done s₁
unfolding dispatch add_price mean
first_applied = refl

-- it_aggregates_the_price
aggregates : average_price s₂ ≡ some 35
unfolding average_price mean
aggregates = refl

-- Block 3 comes before the interval is over.
unsigned_cooldown_example :
    (e : InvalidTransaction) × (validate_unsigned example_config verify
        (record s₁ { block_number = 3 })
        second
      ≡ err e)
unsigned_cooldown_example =
    unsigned_cooldown mock_system example_config verify mock_system-IsLawful s₀ first second none
      (omega arith) first_valid first_applied (next_block 3 start (omega arith)) (omega arith)

validate_unsigned_iff_example :
    ((v : ValidTransaction ℕ) × (validate_unsigned example_config verify s₁ second ≡ ok v))
    ↔ IsAcceptable example_config verify s₁ second
validate_unsigned_iff_example = validate_unsigned_iff example_config verify s₁ second

priority_by_distance_example :
    let v = valid_transaction example_config s₃ 40 in
    let w = valid_transaction example_config s₃ 20 in
    (v.priority ≡ min (3 + ((35 - 40) + (40 - 35))) (u64_values - 1))
    × (w.priority ≡ min (3 + ((35 - 20) + (20 - 35))) (u64_values - 1))
    × (v.priority ≤ w.priority)
unfolding validate_unsigned average_price mean
priority_by_distance_example =
    priority_by_distance example_config verify s₃ (Call.submit_price_unsigned 7 40)
      (Call.submit_price_unsigned 7 20) refl (omega arith) refl refl

-- A sum that saturates.
mean-eq-min_example : mean (4294967295 ∷ 43 ∷ []) ≡ some (4294967295 / 2)
mean-eq-min_example = mean-eq-min (4294967295 ∷ 43 ∷ []) (omega arith) (omega arith)

-- A full list: the prices 0 to 63.
up_to : ℕ → List ℕ → List ℕ
up_to zero rest = rest
up_to (suc n) rest = up_to n (n ∷ rest)

abbrev full : List ℕ
full = unfold up_to in up_to 64 []

insert_price_evicts_example :
    (one : List ℕ) × (two : List ℕ) × (insert_price full 130 ≡ some one)
    × (insert_price one 194 ≡ some two)
    × (insert_price full 194 ≡ some two)
unfolding up_to
insert_price_evicts_example = insert_price_evicts full 130 194 (omega arith) refl

-- The newest 64 prices would still hold 130.
not_the_last_64 : get_elem? (with_price (with_price full 130) 194) 2 ≡ some 194
unfolding up_to with_price
not_the_last_64 = refl

-- A full list loses the price under slot 2.
add_price-Takes_example :
    (t : State ℕ) × (add_price 7 130 (record s₀ { prices = full }) ≡ some t)
    × Takes 64 130 (of_list full) (of_list t.prices)
    × (average_price t ≡ average_of (of_list t.prices))
unfolding up_to
add_price-Takes_example = add_price-Takes 7 130 (record s₀ { prices = full })
