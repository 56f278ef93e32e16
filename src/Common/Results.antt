-- ===== src/Common/Results.antt =====
-- Rust's `Result`, and runs that thread a state and may stop with an error.
use mathlib.Core.Path.{◌≡◌, refl, ◌∙◌}
use mathlib.Core.Logic.{◌⊎◌, inl, inr}
use mathlib.Core.Option.{Option, none, some}
use native.Mathlib.Omega.{arith}

pub data Result {ℓ κ} (E : Type κ) (A : Type ℓ) : Type (ℓ ⊔ κ) where
  ok : A → Result E A
  err : E → Result E A

abbrev pub map_err {ℓ κ μ} :
    {E : Type κ} {F : Type μ} {A : Type ℓ} → (E → F) → Result E A → Result F A
map_err f (ok a) = ok a
map_err f (err e) = err (f e)

abbrev pub ok_or {ℓ κ} : {E : Type κ} {A : Type ℓ} → E → Option A → Result E A
ok_or e none = err e
ok_or e (some a) = ok a

pub Result-cases {ℓ κ} :
    {E : Type κ} {A : Type ℓ} (r : Result E A) → ((a : A) × (r ≡ ok a)) ⊎ ((e : E) × (r ≡ err e))
Result-cases (ok a) = inl (a, refl)
Result-cases (err e) = inr (e, refl)

-- A computation over the outside world `S`: a value or an error of `E`, and the world after it.
-- `none` is a panic.
abbrev pub Run : Type 0 → Type 0 → Type 0 → Type 0
Run S E A = S → Option (Result E A × S)

module _ {S E A B : Type 0} where
  abbrev pub and_then : Option (Result E A × S) → (A → Run S E B) → Option (Result E B × S)
  and_then none f = none
  and_then (some (ok a, s)) f = f a s
  and_then (some (err e, s)) f = some (err e, s)

  infixl 5 ◌>>=◌
  abbrev pub ◌>>=◌ : Run S E A → (A → Run S E B) → Run S E B
  ◌>>=◌ m f s = and_then (m s) f

  infixl 5 ◌>>◌
  abbrev pub ◌>>◌ : Run S E A → Run S E B → Run S E B
  m >> k = m >>= λ _. k

module _ {S E A : Type 0} where
  -- `?` on a result that is at hand.
  abbrev pub from_result : Result E A → Run S E A
  from_result r s = some (r, s)

  -- A call that cannot fail.
  abbrev pub lift : (S → A × S) → Run S E A
  lift f s = let (a, s') = f s in some (ok a, s')

  -- A step whose outcome may be a panic.
  abbrev pub unless_panic : Option (Result E A) → Run S E A
  unless_panic none s = none
  unless_panic (some r) s = some (r, s)

  -- `map_err` on the result of a run.
  abbrev pub map_run_err : {F : Type 0} → (E → F) → Run S E A → Run S F A
  map_run_err g m s = elim (m s) [ none ↦ none | some (r, s') ↦ some (map_err g r, s') ]

module _ {S E A B : Type 0} where
  -- A successful run of a chain has a successful first step.
  pub >>=-eq-ok :
      (m : Run S E A) (f : A → Run S E B) (s : S) {t : S} {b : B}
      → (m >>= f) s ≡ some (ok b, t)
      → (a : A) × (s' : S) × (m s ≡ some (ok a, s')) × (f a s' ≡ some (ok b, t))
  >>=-eq-ok m f s {t} {b} h = go (m s) refl h
    where
      go :
          (r : Option (Result E A × S))
          → m s ≡ r
          → and_then r f ≡ some (ok b, t)
          → (a : A) × (s' : S) × (m s ≡ some (ok a, s')) × (f a s' ≡ some (ok b, t))
      go none e k = absurd (ground arith)
      go (some (ok a, s')) e k = (a, s', e, k)
      go (some (err x, s')) e k = absurd (ground arith)

-- A run leaves what `view` shows of the world as it was.
abbrev pub Keeps : {S E A V : Type 0} → (S → V) → Run S E A → Type 0
Keeps {S = S} {E = E} {A = A} view m =
    (s s' : S) (r : Result E A) → m s ≡ some (r, s') → view s' ≡ view s

pub Keeps-map_run_err :
    {S E F A V : Type 0} (view : S → V) (g : E → F) (m : Run S E A)
    → Keeps view m
    → Keeps view (map_run_err g m)
Keeps-map_run_err {S} {E} {F} {A} view g m k s s' r e = go (m s) refl e
  where
    go :
        (q : Option (Result E A × S))
        → m s ≡ q
        → elim q as (λ _. Option (Result F A × S)) [
          | none ↦ none
          | some (x, t) ↦ some (map_err g x, t)
        ]
          ≡ some (r, s')
        → view s' ≡ view s
    go none h h' = absurd (ground arith)
    go (some (x, t)) h h' = ground (arith, k s t x h)

pub Keeps->>= :
    {S E A B V : Type 0} (view : S → V) (m : Run S E A) (f : A → Run S E B)
    → Keeps view m
    → ((a : A) → Keeps view (f a))
    → Keeps view (m >>= f)
Keeps->>= {S} {E} {A} view m f km kf s s' r h = go (m s) refl h
  where
    go : (q : Option (Result E A × S)) → m s ≡ q → and_then q f ≡ some (r, s') → view s' ≡ view s
    go none e k = absurd (ground arith)
    go (some (ok a, t)) e k = kf a t s' r k ∙ km s t (ok a) e
    go (some (err x, t)) e k = ground (arith, km s t (err x) e)
