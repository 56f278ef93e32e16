-- ===== src/ExampleOcw/Prices/Mean.antt =====
-- The average against the mean of the prices and against bounds on them.
use mathlib.Core.List.{foldl}
use Prim.Native.Nat.add
use native.Mathlib.Nat.{mod-eq_of_lt}
use substrate_node_template.Common.{
  ℕ, ◌+◌, ◌-◌, ◌*◌, ◌/◌, ◌≤◌, ◌<◌, ◌≡◌, ap, some, List, [], ◌∷◌, arith, length, sum, sum-le, le-sum,
  All, u32_values, saturating_add32, min,
}
use substrate_node_template.ExampleOcw.Prices.{mean}

-- The saturating fold is the sum, cut off at the largest u32.
pub foldl-eq-min :
    (acc : ℕ) (xs : List ℕ)
    → acc < u32_values
    → foldl saturating_add32 acc xs ≡ min (acc + sum xs) (u32_values - 1)
foldl-eq-min acc [] h = omega arith
foldl-eq-min acc (x ∷ xs) h = omega (arith, foldl-eq-min (saturating_add32 acc x) xs (omega arith))

-- The average of at least one and fewer than 2 ^ 32 prices is the smaller of their sum and the largest
-- u32, divided by how many they are and rounded down.
pub mean-eq-min :
    (xs : List ℕ)
    → 0 < length xs
    → length xs < u32_values
    → mean xs ≡ some (min (sum xs) (u32_values - 1) / length xs)
unfolding mean
mean-eq-min [] pos short = elim pos [ ]
mean-eq-min (x ∷ xs) pos short =
    rw (foldl-eq-min 0 (x ∷ xs) (omega arith), mod-eq_of_lt short, add.zero)

-- The average of at least one and fewer than 2 ^ 32 prices whose sum fits a u32 is their mean,
-- rounded down.
pub mean_exact :
    (xs : List ℕ)
    → 0 < length xs
    → length xs < u32_values
    → sum xs < u32_values
    → mean xs ≡ some (sum xs / length xs)
mean_exact xs pos short fits =
    rw (mean-eq-min xs pos short) (ap (λ t. some (t / length xs)) (omega arith))

mean_pos : (xs : List ℕ) {m : ℕ} → mean xs ≡ some m → 0 < length xs
unfolding mean
mean_pos [] e = absurd (ground arith)
mean_pos (x ∷ xs) e = omega arith

div-le : (hi n d : ℕ) → 0 < d → n ≤ hi * d → n / d ≤ hi
div-le hi n d pos h = grind arith

le-div : (lo n d : ℕ) → 0 < d → lo * d ≤ n → lo ≤ n / d
le-div lo n d pos h = grind arith

-- The average of fewer than 2 ^ 32 prices is at most any bound on the prices, also where their sum
-- saturates.
pub mean-le :
    (hi : ℕ) (xs : List ℕ) {m : ℕ}
    → length xs < u32_values
    → All (λ x. x ≤ hi) xs
    → mean xs ≡ some m
    → m ≤ hi
mean-le hi xs short high e =
    let pos = mean_pos xs e in
    let b : min (sum xs) (u32_values - 1) / length xs ≤ hi =
      div-le hi _ _ pos (omega (arith, sum-le hi xs high)) in
    ground (arith, mean-eq-min xs pos short)

-- The average of fewer than 2 ^ 32 prices whose sum fits a u32 is at least any lower bound on the
-- prices.
pub le-mean :
    (lo : ℕ) (xs : List ℕ) {m : ℕ}
    → length xs < u32_values
    → sum xs < u32_values
    → All (λ x. lo ≤ x) xs
    → mean xs ≡ some m
    → lo ≤ m
le-mean lo xs short fits low e =
    let pos = mean_pos xs e in
    let b : lo ≤ sum xs / length xs = le-div lo _ _ pos (le-sum lo xs low) in
    ground (arith, mean_exact xs pos short fits)
