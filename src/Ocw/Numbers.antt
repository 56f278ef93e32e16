-- ===== src/Ocw/Numbers.antt =====
-- `append_or_replace_number`: a queue that forgets its head when it is full.
pub mod Recent
pub mod Bounds
use substrate_node_template.Common.{ℕ, List, [], ◌∷◌, ◌++◌, length, ◌==◌, if◌then◌else◌}
use substrate_node_template.Ocw.Types.{State, num_vec_len}

-- `let _ = numbers.pop_front()`
abbrev pub pop_front {ℓ} : {A : Type ℓ} → List A → List A
pop_front [] = []
pop_front (x ∷ xs) = xs

unfoldable pub push_number : List ℕ → ℕ → List ℕ
push_number numbers number =
    (if length numbers == num_vec_len then pop_front numbers else numbers) ++ (number ∷ [])

unfoldable pub append_or_replace_number :
    {AccountId : Type 0} → ℕ → State AccountId → State AccountId
unfolding push_number
append_or_replace_number number s = record s { numbers = push_number s.numbers number }
