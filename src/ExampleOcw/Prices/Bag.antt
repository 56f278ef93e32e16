-- ===== src/ExampleOcw/Prices/Bag.antt =====
-- The prices without their order: the list is one representation of a bag of prices.
use mathlib.Core.Path.{subst, subst₂}
use mathlib.Core.Logic.{∥∥₁_elim}
use mathlib.Core.List.{Perm, Permᴰ}
use mathlib.Core.List.Perm
use mathlib.Core.Quot.{lift, sound}
use mathlib.Mathlib.Data.Multiset.{Multiset, of_list}
use mathlib.Mathlib.Data.Multiset.ZeroCons.{cons}
use native.Mathlib.Nat.{ℕ_set}
use substrate_node_template.Common.{
  ℕ, ◌%◌, ◌≤◌, ◌<◌, ◌≡◌, refl, sym, Option, some, List, [], ◌∷◌, ◌++◌, arith, length, sum, set, ltb,
  Bool-cases, inl, inr, zero, suc,
}
use substrate_node_template.ExampleOcw.Types.{State}
use substrate_node_template.ExampleOcw.Prices.{max_len, mean, average_price, add_price}
use substrate_node_template.ExampleOcw.Prices.Inserted.{with_price}
use substrate_node_template.ExampleOcw.Prices.Bounds.{added, add_price-added}
use substrate_node_template.ExampleOcw.Prices.Mean.{foldl-eq-min}

-- Lists with the same items have the same length and the same sum.
measures-Permᴰ : {xs ys : List ℕ} → Permᴰ xs ys → (length xs ≡ length ys) × (sum xs ≡ sum ys)
measures-Permᴰ Permᴰ.nil = (refl, refl)
measures-Permᴰ (Permᴰ.cons e d) = omega (arith, e, measures-Permᴰ d)
measures-Permᴰ (Permᴰ.swap e f) = omega (arith, e, f)
measures-Permᴰ (Permᴰ.trans d e) = omega (arith, measures-Permᴰ d, measures-Permᴰ e)

measures-Perm : {xs ys : List ℕ} → Perm xs ys → (length xs ≡ length ys) × (sum xs ≡ sum ys)
measures-Perm p = ∥∥₁_elim p (hlevel (ℕ_set)) measures-Permᴰ

pub mean-Perm : (xs ys : List ℕ) → Perm xs ys → mean xs ≡ mean ys
unfolding mean
mean-Perm [] [] p = refl
mean-Perm [] (y ∷ ys) p = absurd (omega (arith, measures-Perm p))
mean-Perm (x ∷ xs) [] p = absurd (omega (arith, measures-Perm p))
mean-Perm (x ∷ xs) (y ∷ ys) p =
    let (same_length, same_sum) = measures-Perm p in
    rw
      (
        foldl-eq-min 0 (x ∷ xs) (omega arith),
        foldl-eq-min 0 (y ∷ ys) (omega arith),
        same_length,
        same_sum,
      )
      refl

pub Option-IsSet : IsSet (Option ℕ)
Option-IsSet = hlevel (ℕ_set)

-- The average of a bag.
unfoldable pub average_of : Multiset ℕ → Option ℕ
average_of = lift Option-IsSet mean mean-Perm

-- A bag with room for 64 prices, of which `n` are there, takes a price: it gains it, or if it is full
-- it loses another one for it.
pub data Takes (n price : ℕ) : Multiset ℕ → Multiset ℕ → Type 0 where
  gains : (b : Multiset ℕ) → n < max_len → Takes n price b (cons price b)
  replaces :
      (old : ℕ) (rest : Multiset ℕ) → max_len ≤ n → Takes n price (cons old rest) (cons price rest)

-- A write to a slot puts the value in place of the one that was there.
set-Perm :
    (xs : List ℕ) (i new : ℕ)
    → i < length xs
    → (old : ℕ) × (rest : List ℕ) × Perm xs (old ∷ rest) × Perm (set xs i new) (new ∷ rest)
set-Perm [] i new h = absurd (omega arith)
set-Perm (x ∷ xs) zero new h = (x, xs, Perm.refl (x ∷ xs), Perm.refl (new ∷ xs))
set-Perm (x ∷ xs) (suc i) new h =
    let (old, rest, before, after) = set-Perm xs i new (omega arith) in
    (
      old,
      x ∷ rest,
      Perm.trans (Perm.cons x before) (Perm.swap old x rest),
      Perm.trans (Perm.cons x after) (Perm.swap new x rest),
    )

last-Perm : (xs : List ℕ) (x : ℕ) → Perm (xs ++ (x ∷ [])) (x ∷ xs)
last-Perm [] x = Perm.refl (x ∷ [])
last-Perm (y ∷ ys) x = Perm.trans (Perm.cons y (last-Perm ys x)) (Perm.swap x y ys)

with_price-Takes :
    (prices : List ℕ) (price : ℕ)
    → Takes (length prices) price (of_list prices) (of_list (with_price prices price))
unfolding with_price
with_price-Takes prices price = elim (Bool-cases (ltb (length prices) max_len)) [
  | inl room ↦ rw room (
      subst (λ b. Takes (length prices) price (of_list prices) b)
        (sym (sound (last-Perm prices price))) (gains (of_list prices) (ground arith)))
  | inr full ↦
      let many : max_len ≤ length prices = ground (arith, full) in
      let at : price % max_len < length prices = omega arith in
      let (old, rest, before, after) = set-Perm prices (price % max_len) price at in
      rw full (
        subst₂ (λ b c. Takes (length prices) price b c) (sym (sound before)) (sym (sound after))
          (replaces old (of_list rest) many))
]

module _ {AccountId : Type 0} where
  -- The list of prices stands for a bag of them: `add_price` never panics; it gives the price to the
  -- bag, which has room for 64 and loses another price if it is full, and the average of the list is
  -- the average of the bag, so neither depends on the order.
  pub add_price-Takes :
      (who : AccountId) (price : ℕ) (s : State AccountId)
      → (t : State AccountId) × (add_price who price s ≡ some t)
        × Takes (length s.prices) price (of_list s.prices) (of_list t.prices)
        × (average_price t ≡ average_of (of_list t.prices))
  unfolding average_price average_of
  add_price-Takes who price s =
      (added who price s, add_price-added who price s, with_price-Takes s.prices price, refl)
