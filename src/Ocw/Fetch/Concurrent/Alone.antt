-- ===== src/Ocw/Fetch/Concurrent/Alone.antt =====
-- A run that nobody interrupts is a run of `fetch_remote_info`.
use mathlib.Core.Path.{subst₂}
use substrate_node_template.Common.{
  ℕ, ◌≡◌, ◌↔◌, ◌∙◌, refl, sym, ap, Option, none, some, List, Result, ok, err, arith, Option-cases,
  inl, inr,
}
use substrate_node_template.Offchain.{Host}
use substrate_node_template.Ocw.Types.{
  State, HackerNewsInfo, Error, lock_block_expiration, lock_timeout_expiration,
}
use substrate_node_template.Ocw.Fetch.{
  InfoStorage, info_key, lock_key, fetch_n_parse, keep_info, fetch_locked, fetch_remote_info,
  current_block_number, unless_cached,
}
use substrate_node_template.Ocw.Fetch.Cache.{unless_cached_fresh}
use substrate_node_template.Ocw.Fetch.Concurrent.{
  Phase, looking, trying, fetching, storing, releasing, returned, Move, cached, nothing_cached,
  busy, locked, fetched, kept, lost, released,
}

module _ (host : Host) (from_json : List ℕ → Option HackerNewsInfo)
    (storage : InfoStorage (Host.World host)) where
  open host use {World}
  open storage use {Guard, get, try_lock}

  -- Moves of one run in a row.
  pub data Alone (current_block : ℕ) (w : World) (p : Phase Guard)
      : World → Phase Guard → Type 0 where
    here : Alone current_block w p w p
    more :
        {w₁ w₂ : World} {p₁ p₂ : Phase Guard}
        → Alone current_block w p w₁ p₁
        → Move host from_json storage current_block w₁ p₁ w₂ p₂
        → Alone current_block w p w₂ p₂

  -- What follows on `try_lock`.
  abbrev after_lock : Option Guard × World → Option (Result Error (Unit {0}) × World)
  after_lock (none, w) = some (ok tt, w)
  after_lock (some g, w) = keep_info host from_json storage g (fetch_n_parse host from_json w)

  fetch_locked-eq :
      (b : ℕ) (w : World)
      → fetch_locked host from_json storage b w
        ≡ after_lock (try_lock lock_key b lock_block_expiration lock_timeout_expiration w)
  unfolding fetch_locked
  fetch_locked-eq b w = go (try_lock lock_key b lock_block_expiration lock_timeout_expiration w)
    where
      go :
          (q : Option Guard × World)
          → elim q.0 as (λ x. Option (Result Error (Unit {0}) × World)) [
            | none ↦ some (ok tt, q.1)
            | some g ↦ keep_info host from_json storage g (fetch_n_parse host from_json q.1)
          ]
            ≡ after_lock q
      go (none, w₁) = refl
      go (some g, w₁) = refl

  -- What is left of the code to run in a phase.
  rest :
      {AccountId : Type 0}
      → State AccountId
      → Phase Guard
      → World
      → Option (Result Error (Unit {0}) × World)
  rest s looking w = fetch_remote_info host from_json storage s w
  rest s trying w = fetch_locked host from_json storage (current_block_number s) w
  rest s (fetching g) w = keep_info host from_json storage g (fetch_n_parse host from_json w)
  rest s (storing g r) w = keep_info host from_json storage g (some (r, w))
  rest s (releasing g x) w = some (x, InfoStorage.release storage g w)
  rest s (returned x) w = some (x, w)

  module _ {AccountId : Type 0} (s : State AccountId) where
    Move-rest :
        (w w' : World) (p p' : Phase Guard)
        → Move host from_json storage (current_block_number s) w p w' p'
        → rest s p w ≡ rest s p' w'
    unfolding rest fetch_remote_info
    Move-rest w w' p p' (cached i e) = rw e refl
    Move-rest w w' p p' (nothing_cached fresh) =
        unless_cached_fresh host storage from_json (get info_key w) w _ fresh
    Move-rest w w' p p' (busy e) = fetch_locked-eq (current_block_number s) w ∙ ap after_lock e
    Move-rest w w' p p' (locked e) = fetch_locked-eq (current_block_number s) w ∙ ap after_lock e
    Move-rest w w' p p' (fetched e) = rw e refl
    Move-rest w w' p p' (kept i) = refl
    Move-rest w w' p p' (lost e) = refl
    Move-rest w w' p p' released = refl

    Alone-rest :
        (w : World) (p : Phase Guard) (w' : World) (p' : Phase Guard)
        → Alone (current_block_number s) w p w' p'
        → rest s p w ≡ rest s p' w'
    Alone-rest w p w' p' here = refl
    Alone-rest w p w' p' (more {w₁ = w₁} {p₁ = p₁} a m) =
        Alone-rest w p w₁ p₁ a ∙ Move-rest w₁ w' p₁ p' m

    -- Moves to where a run returns.
    ends :
        (w₀ w w' : World) (x y : Result Error (Unit {0}))
        → ◌≡◌ {A = Option (Result Error (Unit {0}) × World)} (some (y, w)) (some (x, w'))
        → Alone (current_block_number s) w₀ looking w (returned y)
        → Alone (current_block_number s) w₀ looking w' (returned x)
    ends w₀ w w' x y e a =
        let one : y ≡ x = ground arith in
        let two : w ≡ w' = ground arith in
        subst₂ (λ u v. Alone (current_block_number s) w₀ looking u (returned v)) two one a

    from_storing :
        (w₀ w w' : World) (g : Guard) (r : Result Error HackerNewsInfo)
        (x : Result Error (Unit {0}))
        → keep_info host from_json storage g (some (r, w)) ≡ some (x, w')
        → Alone (current_block_number s) w₀ looking w (storing g r)
        → Alone (current_block_number s) w₀ looking w' (returned x)
    from_storing w₀ w w' g (ok i) x e a = ends w₀ _ w' x _ e (more (more a (kept i)) released)
    from_storing w₀ w w' g (err z) x e a = ends w₀ _ w' x _ e (more (more a (lost z)) released)

    from_fetching :
        (w₀ w w' : World) (g : Guard) (x : Result Error (Unit {0}))
        → keep_info host from_json storage g (fetch_n_parse host from_json w) ≡ some (x, w')
        → Alone (current_block_number s) w₀ looking w (fetching g)
        → Alone (current_block_number s) w₀ looking w' (returned x)
    from_fetching w₀ w w' g x e a = elim (Option-cases (fetch_n_parse host from_json w)) [
      | inl panic ↦ absurd (ground arith)
      | inr ((r, w₁), h) ↦ from_storing w₀ w₁ w' g r x (rw h at e) (more a (fetched h))
    ]

    from_trying :
        (w₀ w w' : World) (x : Result Error (Unit {0}))
        → fetch_locked host from_json storage (current_block_number s) w ≡ some (x, w')
        → Alone (current_block_number s) w₀ looking w trying
        → Alone (current_block_number s) w₀ looking w' (returned x)
    from_trying w₀ w w' x e a =
        go
          (try_lock lock_key (current_block_number s) lock_block_expiration lock_timeout_expiration
            w)
          refl (sym (fetch_locked-eq (current_block_number s) w) ∙ e)
      where
        go :
            (q : Option Guard × World)
            → try_lock lock_key
                (current_block_number s)
                lock_block_expiration
                lock_timeout_expiration
                w
              ≡ q
            → after_lock q ≡ some (x, w')
            → Alone (current_block_number s) w₀ looking w' (returned x)
        go (none, w₁) h k = ends w₀ w₁ w' x (ok tt) k (more a (busy h))
        go (some g, w₁) h k = from_fetching w₀ w₁ w' g x k (more a (locked h))

    from_looking :
        (w w' : World) (x : Result Error (Unit {0}))
        → fetch_remote_info host from_json storage s w ≡ some (x, w')
        → Alone (current_block_number s) w looking w' (returned x)
    unfolding fetch_remote_info
    from_looking w w' x e = go (get info_key w) refl e
      where
        go :
            (q : Result (InfoStorage.RetrievalError storage) (Option HackerNewsInfo))
            → get info_key w ≡ q
            → unless_cached host from_json storage q w
                (fetch_locked host from_json storage (current_block_number s) w)
              ≡ some (x, w')
            → Alone (current_block_number s) w looking w' (returned x)
        go (ok (some i)) h k = ends w w w' x (ok tt) k (more here (cached i h))
        go (ok none) h k = from_trying w w w' x k (more here (nothing_cached (λ i m. ground arith)))
        go (err z) h k = from_trying w w w' x k (more here (nothing_cached (λ i m. ground arith)))

    -- A run of `fetch_remote_info` from a world ends with a result in another world exactly if the
    -- moves of one run, with nothing in between, lead there.
    pub Alone-iff :
        (w w' : World) (x : Result Error (Unit {0}))
        → (fetch_remote_info host from_json storage s w ≡ some (x, w'))
          ↔ Alone (current_block_number s) w looking w' (returned x)
    unfolding rest
    Alone-iff w w' x = (from_looking w w' x, (λ a. Alone-rest w looking w' (returned x) a))
