-- ===== src/Ocw/Fetch/Kept.antt =====
-- What a fetch leaves alone: whatever neither the host nor the local storage touches.
use substrate_node_template.Common.{
  ℕ, ◌≡◌, ◌∙◌, refl, Option, none, some, List, String, arith, Result, ok, err, Keeps, Keeps->>=,
  Keeps-map_run_err, Option-cases, inl, inr,
}
use substrate_node_template.Offchain.{Host}
use substrate_node_template.Offchain.Pool.{HostLaws}
use substrate_node_template.Ocw.Types.{
  State, HackerNewsInfo, Error, lock_block_expiration, lock_timeout_expiration,
}
use substrate_node_template.Ocw.Fetch.{
  InfoStorage, info_key, lock_key, fetch_from_remote, fetch_n_parse, parse_info, fetch_remote_info,
  current_block_number, keep_info, fetch_locked, unless_cached,
}

module _ (host : Host) {V : Type 0} (view : Host.World host → V) (laws : HostLaws host view)
    (from_json : List ℕ → Option HackerNewsInfo) where
  open host use {World}
  open laws use {timestamp_keeps, send_keeps, wait_keeps, body_keeps}

  fetch_from_remote-Keeps : Keeps view (fetch_from_remote host from_json)
  unfolding fetch_from_remote
  fetch_from_remote-Keeps w w' r e =
      grind (arith, timestamp_keeps, send_keeps, wait_keeps, body_keeps)

  pub fetch_n_parse-Keeps : Keeps view (fetch_n_parse host from_json)
  unfolding fetch_n_parse
  fetch_n_parse-Keeps =
      Keeps->>= view _ (parse_info host from_json)
        (Keeps-map_run_err view _ (fetch_from_remote host from_json) fetch_from_remote-Keeps)
        (λ bytes w w' r e. ground arith)

-- Neither the lock nor a write to the local storage touches what `view` shows.
pub record StorageLaws {World V : Type 0} (storage : InfoStorage World) (view : World → V)
    : Type 0 where
  pub lock_keeps :
      (key : String) (b n m : ℕ) (w : World)
      → view (InfoStorage.try_lock storage key b n m w).1 ≡ view w
  pub set_keeps :
      (key : String) (i : HackerNewsInfo) (w : World)
      → view (InfoStorage.set storage key i w) ≡ view w
  pub release_keeps :
      (g : InfoStorage.Guard storage) (w : World) → view (InfoStorage.release storage g w) ≡ view w

module _ (host : Host) {V : Type 0} (view : Host.World host → V) (laws : HostLaws host view)
    (from_json : List ℕ → Option HackerNewsInfo) (storage : InfoStorage (Host.World host))
    (storage_laws : StorageLaws storage view) where
  open host use {World}
  open storage_laws use {lock_keeps, set_keeps, release_keeps}

  keep_info-Keeps :
      (g : InfoStorage.Guard storage) (q : Option (Result Error HackerNewsInfo × World))
      (w w' : World) (r : Result Error (Unit {0}))
      → ((x : Result Error HackerNewsInfo) (w₁ : World) → q ≡ some (x, w₁) → view w₁ ≡ view w)
      → keep_info host from_json storage g q ≡ some (r, w')
      → view w' ≡ view w
  keep_info-Keeps g none w w' r kept e = absurd (ground arith)
  keep_info-Keeps g (some (ok i, w₁)) w w' r kept e = ground (
    arith,
    release_keeps g (InfoStorage.set storage info_key i w₁),
    set_keeps info_key i w₁,
    kept (ok i) w₁ refl,
  )
  keep_info-Keeps g (some (err x, w₁)) w w' r kept e =
      ground (arith, release_keeps g w₁, kept (err x) w₁ refl)

  fetch_locked-Keeps : (b : ℕ) → Keeps view (fetch_locked host from_json storage b)
  unfolding fetch_locked
  fetch_locked-Keeps b w w' r e =
      let locked : Option (InfoStorage.Guard storage) × World =
        InfoStorage.try_lock storage lock_key b lock_block_expiration lock_timeout_expiration w in
      let untouched : view locked.1 ≡ view w =
        lock_keeps lock_key b lock_block_expiration lock_timeout_expiration w in
      elim (Option-cases locked.0) [
        | inl busy ↦ ground (arith, untouched)
        | inr (g, held) ↦
            keep_info-Keeps g (fetch_n_parse host from_json locked.1) w w' r
              (λ x w₁ run.
                fetch_n_parse-Keeps host view laws from_json locked.1 w₁ x run ∙ untouched)
              (rw (fetch_locked, held) at e)
      ]

  unless_cached-Keeps :
      (q : Result (InfoStorage.RetrievalError storage) (Option HackerNewsInfo)) (w w' : World)
      (out : Option (Result Error (Unit {0}) × World)) (r : Result Error (Unit {0}))
      → (out ≡ some (r, w') → view w' ≡ view w)
      → unless_cached host from_json storage q w out ≡ some (r, w')
      → view w' ≡ view w
  unless_cached-Keeps (ok (some i)) w w' out r kept e = ground arith
  unless_cached-Keeps (ok none) w w' out r kept e = kept e
  unless_cached-Keeps (err x) w w' out r kept e = kept e

  pub fetch_remote_info-Keeps :
      {AccountId : Type 0} (s : State AccountId)
      → Keeps view (fetch_remote_info host from_json storage s)
  unfolding fetch_remote_info
  fetch_remote_info-Keeps s w w' r e =
      unless_cached-Keeps _ w w' _ r (fetch_locked-Keeps (current_block_number s) w w' r) e
