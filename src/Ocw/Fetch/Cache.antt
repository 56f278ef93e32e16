-- ===== src/Ocw/Fetch/Cache.antt =====
-- What a run of `fetch_remote_info` does to the cached information.
use substrate_node_template.Common.{
  ℕ, ◌≡◌, ◌≢◌, ◌∙◌, refl, ◌⊎◌, inl, inr, Option, none, some, List, arith, Result, ok, err,
  Option-cases,
}
use substrate_node_template.Offchain.{Host}
use substrate_node_template.Offchain.Pool.{HostLaws}
use substrate_node_template.Ocw.Fetch.Kept.{fetch_n_parse-Keeps}
use substrate_node_template.Ocw.Types.{
  State, HackerNewsInfo, Error, http_fetching_error, deserialize_to_obj_error,
  deserialize_to_str_error, lock_block_expiration, lock_timeout_expiration,
}
use substrate_node_template.Ocw.Fetch.{
  InfoStorage, info_key, lock_key, fetch_from_remote, fetch_n_parse, unless_cached,
  fetch_remote_info, current_block_number,
}

module _ (host : Host) (storage : InfoStorage (Host.World host)) where
  open host use {World}
  open storage use {get, set, try_lock, release}

  -- What is documented: a value is read back as it was written, and neither HTTP nor the lock
  -- touches what is stored under the key.
  pub record InfoLaws : Type 0 where
    pub get-set :
        (info : HackerNewsInfo) (w : World) → get info_key (set info_key info w) ≡ ok (some info)
    pub get-release :
        (g : InfoStorage.Guard storage) (w : World) → get info_key (release g w) ≡ get info_key w
    pub get-try_lock :
        (b n m : ℕ) (w : World) → get info_key (try_lock lock_key b n m w).1 ≡ get info_key w
    pub host_keeps : HostLaws host (get info_key)

  module _ (from_json : List ℕ → Option HackerNewsInfo) where
    fetch_from_remote-ne-none : (w : World) → fetch_from_remote host from_json w ≢ none
    unfolding fetch_from_remote
    fetch_from_remote-ne-none w h = ground arith

    fetch_from_remote_errors :
        (w w' : World) (e : Error)
        → fetch_from_remote host from_json w ≡ some (err e, w')
        → e ≡ http_fetching_error
    unfolding fetch_from_remote
    fetch_from_remote_errors w w' e h = ground arith

    fetch_n_parse-ne-none : (w : World) → fetch_n_parse host from_json w ≢ none
    unfolding fetch_n_parse
    fetch_n_parse-ne-none w h = ground (arith, fetch_from_remote-ne-none w)

    -- The three errors that a fetch can end with.
    abbrev pub IsFetchError : Error → Type 0
    IsFetchError e =
        (e ≡ http_fetching_error)
        ⊎ ((e ≡ deserialize_to_str_error) ⊎ (e ≡ deserialize_to_obj_error))

    fetch_n_parse_errors :
        (w w' : World) (e : Error)
        → fetch_n_parse host from_json w ≡ some (err e, w')
        → IsFetchError e
    unfolding fetch_n_parse
    fetch_n_parse_errors w w' e h = ground arith

    -- A run never panics.
    pub fetch_remote_info-ne-none :
        {AccountId : Type 0} (s : State AccountId) (w : World)
        → fetch_remote_info host from_json storage s w ≢ none
    unfolding fetch_remote_info
    fetch_remote_info-ne-none s w h = grind (arith, fetch_n_parse-ne-none)

    -- A run that ends with an error has held the lock, and the fetch has failed.
    fetch_remote_info_err :
        {AccountId : Type 0} (s : State AccountId) (w w' : World) (e : Error)
        → fetch_remote_info host from_json storage s w ≡ some (err e, w')
        → (g : InfoStorage.Guard storage) × (w₁ : World) × (w₂ : World) × (fetch_n_parse host
              from_json w₁
            ≡ some (err e, w₂))
          × (w₁
              ≡ (try_lock lock_key
                  (current_block_number s)
                  lock_block_expiration
                  lock_timeout_expiration
                  w).1)
          × (w' ≡ release g w₂)
    unfolding fetch_remote_info
    fetch_remote_info_err s w w' e h =
        let w₁ : World =
          (try_lock lock_key (current_block_number s) lock_block_expiration lock_timeout_expiration
            w).1 in
        elim (Option-cases
          (try_lock lock_key (current_block_number s) lock_block_expiration lock_timeout_expiration
            w).0) [
              | inl busy ↦ absurd (ground arith)
              | inr (g, held) ↦ elim (Option-cases (fetch_n_parse host from_json w₁)) [
                | inl panic ↦ absurd (fetch_n_parse-ne-none w₁ panic)
                | inr ((r, w₂), fetched) ↦ (g, w₁, w₂, ground arith, refl, ground arith)
              ]
            ]

    -- An error of a run is one of a fetch.
    pub fetch_remote_info_errors :
        {AccountId : Type 0} (s : State AccountId) (w w' : World) (e : Error)
        → fetch_remote_info host from_json storage s w ≡ some (err e, w')
        → IsFetchError e
    fetch_remote_info_errors s w w' e h =
        let (_, _, _, failed, _, _) = fetch_remote_info_err s w w' e h in
        fetch_n_parse_errors _ _ e failed

    pub unless_cached_fresh :
        (r : Result (InfoStorage.RetrievalError storage) (Option HackerNewsInfo)) (w : World)
        (out : Option (Result Error (Unit {0}) × World))
        → ((i : HackerNewsInfo) → r ≢ ok (some i))
        → unless_cached host from_json storage r w out ≡ out
    unless_cached_fresh (ok (some i)) w out fresh = absurd (fresh i refl)
    unless_cached_fresh (ok none) w out fresh = refl
    unless_cached_fresh (err e) w out fresh = refl

    module _ (laws : InfoLaws) where
      open laws use {get-set, get-release, get-try_lock, host_keeps}

      -- Under `InfoLaws`, a run that ends with an error leaves the cached information as it was, and
      -- its error is one of the three of a fetch.
      pub fetch_remote_info_failed :
          {AccountId : Type 0} (s : State AccountId) (w w' : World) (e : Error)
          → fetch_remote_info host from_json storage s w ≡ some (err e, w')
          → (get info_key w' ≡ get info_key w) × IsFetchError e
      fetch_remote_info_failed s w w' e h =
          let (g, w₁, w₂, failed, locked, released) = fetch_remote_info_err s w w' e h in
          (
            rw released (
                get-release g w₂
                ∙ fetch_n_parse-Keeps host (get info_key) host_keeps from_json w₁ w₂ (err e) failed
                ∙ rw locked (get-try_lock _ _ _ w)),
            fetch_n_parse_errors w₁ w₂ e failed,
          )

      -- Under `InfoLaws`, where nothing is cached, the lock is free and the fetch under it gives some
      -- information, the run ends well with that information cached, and another run right after it,
      -- for any state, ends well in the same world.
      pub fetch_remote_info_once :
          {AccountId : Type 0} (s t : State AccountId) (w w₁ w₂ : World)
          (g : InfoStorage.Guard storage) (info : HackerNewsInfo)
          → ((i : HackerNewsInfo) → get info_key w ≢ ok (some i))
          → try_lock lock_key
              (current_block_number s)
              lock_block_expiration
              lock_timeout_expiration
              w
            ≡ (some g, w₁)
          → fetch_n_parse host from_json w₁ ≡ some (ok info, w₂)
          → (w' : World) × (fetch_remote_info host from_json storage s w ≡ some (ok tt, w'))
            × (get info_key w' ≡ ok (some info))
            × (fetch_remote_info host from_json storage t w' ≡ some (ok tt, w'))
      unfolding fetch_remote_info
      fetch_remote_info_once s t w w₁ w₂ g info fresh locked fetched =
          let w' : World = release g (set info_key info w₂) in
          let cached : get info_key w' ≡ ok (some info) = get-release g _ ∙ get-set info w₂ in
          (w', unless_cached_fresh (get info_key w) w _ fresh ∙ ground arith, cached, rw cached)
