-- ===== src/Ocw/Numbers/Recent.antt =====
-- A push, where the list is the end of a longer one.
use substrate_node_template.Common.{
  ℕ, zero, suc, ◌-◌, ◌≤◌, ◌≡◌, refl, sym, ap, ◌∙◌, inl, inr, List, [], ◌∷◌, ◌++◌, arith, length,
  drop, take_last, length-append, length-drop, drop-append, Bool-cases, ◌==◌, ==_iff, ◌≢◌,
}
use substrate_node_template.Ocw.Types.{num_vec_len}
use substrate_node_template.Ocw.Numbers.{push_number, pop_front}

drop-suc : (n : ℕ) (xs : List ℕ) → pop_front (drop n xs) ≡ drop (suc n) xs
drop-suc zero [] = refl
drop-suc zero (x ∷ xs) = refl
drop-suc (suc n) [] = refl
drop-suc (suc n) (x ∷ xs) = drop-suc n xs

length-take_last :
    (xs : List ℕ) → length (take_last num_vec_len xs) ≡ length xs - (length xs - num_vec_len)
length-take_last xs = length-drop (length xs - num_vec_len) xs

take_last-append :
    (k : ℕ) (xs ys : List ℕ)
    → k ≤ length xs
    → length (xs ++ ys) - num_vec_len ≡ k
    → drop k xs ++ ys ≡ take_last num_vec_len (xs ++ ys)
take_last-append k xs ys h e = sym (drop-append k xs ys h) ∙ ap (λ n. drop n (xs ++ ys)) (sym e)

-- Pushing onto the last ten of a history gives the last ten of the longer history.
pub push_number-take_last :
    (history : List ℕ) (number : ℕ)
    → push_number (take_last num_vec_len history) number
      ≡ take_last num_vec_len (history ++ (number ∷ []))
unfolding push_number
push_number-take_last history number =
    let shorter = length-take_last history in
    let longer = length-append history (number ∷ []) in
    elim (Bool-cases (length (take_last num_vec_len history) == num_vec_len)) [
      | inl full ↦
          let ten : length (take_last num_vec_len history) ≡ num_vec_len =
            (==_iff _ num_vec_len).0 full in
          rw (full, drop-suc)
            (take_last-append (suc (length history - num_vec_len)) history (number ∷ [])
              (omega arith) (omega arith))
      | inr room ↦
          let other : length (take_last num_vec_len history) ≢ num_vec_len = ground arith in
          rw room (
            take_last-append (length history - num_vec_len) history (number ∷ []) (omega arith)
              (omega arith))
    ]
