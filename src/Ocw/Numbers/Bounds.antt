-- ===== src/Ocw/Numbers/Bounds.antt =====
-- The bound on the stored numbers, and what a push does to it.
use substrate_node_template.Common.{
  ℕ, ◌-◌, ◌≤◌, ◌<◌, ◌≡◌, refl, List, [], ◌∷◌, inl, inr, arith, length, All, length-append,
  All-append, Bool-cases, ◌==◌, u64_values,
}
use substrate_node_template.Ocw.Types.{num_vec_len}
use substrate_node_template.Ocw.Numbers.{push_number, pop_front}

-- At most ten numbers, each a u64.
pub record IsBounded (numbers : List ℕ) : Type 0 where
  pub short : length numbers ≤ num_vec_len
  pub words : All (λ x. x < u64_values) numbers

length-pop_front : (xs : List ℕ) → length (pop_front xs) ≡ length xs - 1
length-pop_front [] = refl
length-pop_front (x ∷ xs) = omega arith

pop_front-All :
    (xs : List ℕ) → All (λ x. x < u64_values) xs → All (λ x. x < u64_values) (pop_front xs)
pop_front-All [] h = h
pop_front-All (x ∷ xs) h = h.1

pub push_number-IsBounded :
    (numbers : List ℕ) (number : ℕ)
    → number < u64_values
    → IsBounded numbers
    → IsBounded (push_number numbers number)
unfolding push_number
push_number-IsBounded numbers number word h = record {
  short = ground (
    arith,
    length-append numbers (number ∷ []),
    length-append (pop_front numbers) (number ∷ []),
    length-pop_front numbers,
  );
  words = elim (Bool-cases (length numbers == num_vec_len)) [
    | inl full ↦
        rw full (
          All-append _ (pop_front numbers) (number ∷ []) (pop_front-All numbers h.words) (word, tt))
    | inr room ↦ rw room (All-append _ numbers (number ∷ []) h.words (word, tt))
  ];
}
