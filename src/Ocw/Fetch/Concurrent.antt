-- ===== src/Ocw/Fetch/Concurrent.antt =====
-- Runs of `fetch_remote_info` that interleave: one access to the local storage, or one fetch, at a
-- time.
pub mod Alone
pub mod Exclusive
pub mod Lock
pub mod Stored
use substrate_node_template.Common.{ℕ, ◌≡◌, ◌≢◌, Option, none, some, List, Result, ok, err, update}
use substrate_node_template.Offchain.{Host}
use substrate_node_template.Ocw.Types.{
  HackerNewsInfo, Error, lock_block_expiration, lock_timeout_expiration,
}
use substrate_node_template.Ocw.Fetch.{InfoStorage, info_key, lock_key, fetch_n_parse}

-- Where a run stands, with the guard and the result that it has.
pub data Phase (Guard : Type 0) : Type 0 where
  looking : Phase Guard  -- before `s_info.get`
  trying : Phase Guard  -- before `lock.try_lock`
  fetching : Guard → Phase Guard  -- before `fetch_n_parse`
  storing : Guard → Result Error HackerNewsInfo → Phase Guard  -- at the `match` on its result
  releasing : Guard → Result Error (Unit {0}) → Phase Guard  -- before the guard is dropped
  returned : Result Error (Unit {0}) → Phase Guard

module _ (host : Host) (from_json : List ℕ → Option HackerNewsInfo)
    (storage : InfoStorage (Host.World host)) where
  open host use {World}
  open storage use {Guard, get, set, try_lock, release}

  -- One move of a run, at a current block.
  pub data Move (current_block : ℕ) (w : World) : Phase Guard → World → Phase Guard → Type 0 where
    cached :
        (i : HackerNewsInfo)
        → get info_key w ≡ ok (some i)
        → Move current_block w looking w (returned (ok tt))
    nothing_cached :
        ((i : HackerNewsInfo) → get info_key w ≢ ok (some i))
        → Move current_block w looking w trying
    busy :
        {w' : World}
        → try_lock lock_key current_block lock_block_expiration lock_timeout_expiration w
          ≡ (none, w')
        → Move current_block w trying w' (returned (ok tt))
    locked :
        {w' : World} {g : Guard}
        → try_lock lock_key current_block lock_block_expiration lock_timeout_expiration w
          ≡ (some g, w')
        → Move current_block w trying w' (fetching g)
    fetched :
        {w' : World} {g : Guard} {r : Result Error HackerNewsInfo}
        → fetch_n_parse host from_json w ≡ some (r, w')
        → Move current_block w (fetching g) w' (storing g r)
    -- `s_info.set` where the fetch gave information; then the guard goes out of scope.
    kept :
        {g : Guard} (i : HackerNewsInfo)
        → Move current_block w (storing g (ok i)) (set info_key i w) (releasing g (ok tt))
    lost :
        {g : Guard} (e : Error) → Move current_block w (storing g (err e)) w (releasing g (err e))
    released :
        {g : Guard} {x : Result Error (Unit {0})}
        → Move current_block w (releasing g x) (release g w) (returned x)

  -- Any number of runs, each at the beginning at first; `view` is what they share of the world.
  pub data Reached {V : Type 0} (view : World → V) (w₀ : World)
      : World → (ℕ → Phase Guard) → Type 0 where
    begun : Reached view w₀ w₀ (λ _. looking)
    -- Some run makes a move.
    moved :
        {w w' : World} {f : ℕ → Phase Guard} {p : Phase Guard} (i current_block : ℕ)
        → Reached view w₀ w f
        → Move current_block w (f i) w' p
        → Reached view w₀ w' (update f i p)
    -- Something else happens, which does not touch what the runs share.
    elsewhere :
        {w w' : World} {f : ℕ → Phase Guard}
        → Reached view w₀ w f
        → view w' ≡ view w
        → Reached view w₀ w' f
