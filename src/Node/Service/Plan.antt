-- ===== src/Node/Service/Plan.antt =====
-- A plan: the calls that a service makes one after another, and what its run does.
use substrate_node_template.Common.{
  ℕ, String, Bool, true, false, Option, none, some, List, [], ◌∷◌, ◌++◌, ◌≡◌, refl, ◌∙◌, sym,
  Result, ok, err, ◌>>=◌, ◌>>◌, from_result, arith, All, Result-cases, ◌⊎◌, inl, inr, and_then,
}
use substrate_node_template.Node.Service.Types.{
  Platform, Action, ServiceError, Build, History, act, attempt, insist, Task, spawn, generate_key,
  start_network, start_aura, import_queue, native_version,
}

-- A call that cannot fail, one whose error ends the run, and one whose error is a panic.
pub data Step (Role : Type 0) : Type 0 where
  certain fallible vital : Action Role → Step Role

abbrev pub call : {Role : Type 0} → Step Role → Action Role
call (certain a) = a
call (fallible a) = a
call (vital a) = a

-- The steps that a condition adds.
abbrev pub only : {A : Type 0} → Bool → List A → List A
only true xs = xs
only false xs = []

-- The tasks and the keys of a history in the order in which they came, and whether the network has
-- been started.
module _ {Role : Type 0} where
  abbrev tasks_onto : List (Action Role) → List Task → List Task
  tasks_onto [] later = later
  tasks_onto (spawn t ∷ h) later = tasks_onto h (t ∷ later)
  tasks_onto (_ ∷ h) later = tasks_onto h later

  abbrev pub tasks : List (Action Role) → List Task
  tasks h = tasks_onto h []

  abbrev keys_onto : List (Action Role) → List (List ℕ × String) → List (List ℕ × String)
  keys_onto [] later = later
  keys_onto (generate_key key seed ∷ h) later = keys_onto h ((key, seed) ∷ later)
  keys_onto (_ ∷ h) later = keys_onto h later

  abbrev pub keys : List (Action Role) → List (List ℕ × String)
  keys h = keys_onto h []

  abbrev pub starts : Action Role → Bool
  starts start_network = true
  starts _ = false

  abbrev pub authors : Action Role → Bool
  authors (start_aura _ _) = true
  authors (import_queue native_version _) = true
  authors _ = false

  abbrev pub NotStarted : List (Action Role) → Type 0
  NotStarted h = All (λ a. starts a ≡ false) h

module _ (platform : Platform) where
  open platform use {Role, outcome, LibraryError}

  unfoldable pub run_step : Step Role → Build platform (Unit {0})
  run_step (certain a) = act platform a
  run_step (fallible a) = attempt platform a
  run_step (vital a) = insist platform a

  -- The steps in order, up to the first failure.
  unfoldable pub run_plan : List (Step Role) → Build platform (Unit {0})
  run_plan [] = from_result (ok tt)
  run_plan (s ∷ plan) = run_step s >> run_plan plan

  -- The history after all steps.
  abbrev pub after : List (Step Role) → History platform → History platform
  after [] h = h
  after (s ∷ plan) h = after plan (call s ∷ h)

  pub and_then_assoc :
      {A B C : Type 0} (r : Option (Result (ServiceError LibraryError) A × History platform))
      (f : A → Build platform B) (g : B → Build platform C)
      → and_then (and_then r f) g ≡ and_then r (λ x. f x >>= g)
  and_then_assoc none f g = refl
  and_then_assoc (some (ok x, h)) f g = refl
  and_then_assoc (some (err e, h)) f g = refl

  pub and_then_congr :
      {A B : Type 0} (r : Option (Result (ServiceError LibraryError) A × History platform))
      (f g : A → Build platform B)
      → ((x : A) (h : History platform) → f x h ≡ g x h)
      → and_then r f ≡ and_then r g
  and_then_congr none f g e = refl
  and_then_congr (some (ok x, h)) f g e = e x h
  and_then_congr (some (err x, h)) f g e = refl

  pub run_plan-append :
      (xs ys : List (Step Role)) (h : History platform)
      → run_plan (xs ++ ys) h ≡ and_then (run_plan xs h) (λ _. run_plan ys)
  unfolding run_plan
  run_plan-append [] ys h = refl
  run_plan-append (s ∷ xs) ys h =
      and_then_congr (run_step s h) (λ _. run_plan (xs ++ ys)) (λ _. run_plan xs >> run_plan ys)
        (λ x h'. run_plan-append xs ys h')
      ∙ sym (and_then_assoc (run_step s h) (λ _. run_plan xs) (λ _. run_plan ys))

  -- A run without an error has made all calls.
  run_plan-ok :
      (plan : List (Step Role)) (h h' : History platform)
      → run_plan plan h ≡ some (ok tt, h')
      → h' ≡ after plan h
  unfolding run_plan run_step
  run_plan-ok [] h h' e = ground arith
  run_plan-ok (certain a ∷ plan) h h' e = run_plan-ok plan (a ∷ h) h' e
  run_plan-ok (fallible a ∷ plan) h h' e = ground (arith, run_plan-ok plan (a ∷ h) h')
  run_plan-ok (vital a ∷ plan) h h' e = ground (arith, run_plan-ok plan (a ∷ h) h')

  All-after :
      (P : Action Role → Type 0) (plan : List (Step Role)) (h : History platform)
      → All (λ s. P (call s)) plan
      → All P h
      → All P (after plan h)
  All-after P [] h p q = q
  All-after P (s ∷ plan) h p q = All-after P plan (call s ∷ h) p.1 (p.0, q)

  after-append :
      (xs ys : List (Step Role)) (h : History platform) → after (xs ++ ys) h ≡ after ys (after xs h)
  after-append [] ys h = refl
  after-append (s ∷ xs) ys h = after-append xs ys (call s ∷ h)

  -- A run that ends with an error stops before the last call of its plan, if that call cannot fail.
  pub run_plan-err :
      (P : Action Role → Type 0) (plan : List (Step Role)) (last : Action Role)
      (h h' : History platform) (e : ServiceError LibraryError)
      → All (λ s. P (call s)) plan
      → All P h
      → run_plan (plan ++ (certain last ∷ [])) h ≡ some (err e, h')
      → All P h'
  unfolding run_plan run_step
  run_plan-err P [] last h h' e p q r = absurd (ground arith)
  run_plan-err P (certain a ∷ plan) last h h' e p q r =
      run_plan-err P plan last (a ∷ h) h' e p.1 (p.0, q) r
  run_plan-err P (fallible a ∷ plan) last h h' e p q r = elim (Result-cases (outcome h a)) [
    | inl (x, good) ↦
        let rest : run_plan (plan ++ (certain last ∷ [])) (a ∷ h) ≡ some (err e, h') =
          ground arith in
        run_plan-err P plan last (a ∷ h) h' e p.1 (p.0, q) rest
    | inr (x, bad) ↦ let same : h' ≡ a ∷ h = ground arith in rw same (p.0, q)
  ]
  run_plan-err P (vital a ∷ plan) last h h' e p q r = elim (Result-cases (outcome h a)) [
    | inl (x, good) ↦
        let rest : run_plan (plan ++ (certain last ∷ [])) (a ∷ h) ≡ some (err e, h') =
          ground arith in
        run_plan-err P plan last (a ∷ h) h' e p.1 (p.0, q) rest
    | inr (x, bad) ↦ absurd (ground arith)
  ]

  -- However a run ends, it has made calls of its plan only.
  pub run_plan-All :
      (P : Action Role → Type 0) (plan : List (Step Role)) (h h' : History platform)
      (r : Result (ServiceError LibraryError) (Unit {0}))
      → All (λ s. P (call s)) plan
      → All P h
      → run_plan plan h ≡ some (r, h')
      → All P h'
  unfolding run_plan run_step
  run_plan-All P [] h h' r p q e = let same : h' ≡ h = ground arith in rw same q
  run_plan-All P (certain a ∷ plan) h h' r p q e = run_plan-All P plan (a ∷ h) h' r p.1 (p.0, q) e
  run_plan-All P (fallible a ∷ plan) h h' r p q e = elim (Result-cases (outcome h a)) [
    | inl (x, good) ↦
        let rest : run_plan plan (a ∷ h) ≡ some (r, h') = ground arith in
        run_plan-All P plan (a ∷ h) h' r p.1 (p.0, q) rest
    | inr (x, bad) ↦ let same : h' ≡ a ∷ h = ground arith in rw same (p.0, q)
  ]
  run_plan-All P (vital a ∷ plan) h h' r p q e = elim (Result-cases (outcome h a)) [
    | inl (x, good) ↦
        let rest : run_plan plan (a ∷ h) ≡ some (r, h') = ground arith in
        run_plan-All P plan (a ∷ h) h' r p.1 (p.0, q) rest
    | inr (x, bad) ↦ absurd (ground arith)
  ]

  -- How a plan ends whose last call alone starts the network.
  abbrev pub Ends :
      List (Step Role) → Result (ServiceError LibraryError) (Unit {0}) → History platform → Type 0
  Ends calls r h =
      ((r ≡ ok tt) × (h ≡ start_network ∷ after calls []) × NotStarted (after calls []))
      ⊎ ((e : ServiceError LibraryError) × (r ≡ err e) × NotStarted h)

  pub run_plan-Ends :
      (calls : List (Step Role)) (r : Result (ServiceError LibraryError) (Unit {0}))
      (h : History platform)
      → All (λ s. starts (call s) ≡ false) calls
      → run_plan (calls ++ (certain start_network ∷ [])) [] ≡ some (r, h)
      → Ends calls r h
  run_plan-Ends calls (ok x) h quiet e = inl (
    refl,
    run_plan-ok (calls ++ (certain start_network ∷ [])) [] h e
        ∙ after-append calls (certain start_network ∷ []) [],
    All-after (λ a. starts a ≡ false) calls [] quiet tt,
  )
  run_plan-Ends calls (err x) h quiet e =
      inr (x, refl, run_plan-err (λ a. starts a ≡ false) calls start_network [] h x quiet tt e)
