-- ===== src/Ocw/Fetch.antt =====
-- `fetch_remote_info`: remote data is fetched once, under a lock, and cached in the local storage.
pub mod Cache
pub mod Kept
pub mod Concurrent
use substrate_node_template.Common.{
  ℕ, String, Option, none, some, List, Result, ok, err, ok_or, map_err, Run, ◌>>=◌, from_result,
  lift, map_run_err, from_utf8, ◌==◌, if◌then◌else◌,
}
use substrate_node_template.Offchain.{Host, HttpError}
use substrate_node_template.Ocw.Types.{
  State, HackerNewsInfo, Error, http_fetching_error, deserialize_to_obj_error,
  deserialize_to_str_error, http_remote_request, fetch_timeout_period, lock_timeout_expiration,
  lock_block_expiration,
}

abbrev pub info_key : String
info_key = "offchain-demo::hn-info"

abbrev pub lock_key : String
lock_key = "offchain-demo::lock"

-- Local storage as this pallet uses it: StorageValueRef::persistent(key).get and .set, and
-- StorageLock::with_block_and_time_deadline(key, blocks, millis).try_lock() at a current block. The
-- guard is released where it goes out of scope.
pub record InfoStorage (World : Type 0) : Type 1 where
  pub RetrievalError : Type 0
  pub Guard : Type 0
  pub get : String → World → Result RetrievalError (Option HackerNewsInfo)
  pub set : String → HackerNewsInfo → World → World
  pub try_lock : String → ℕ → ℕ → ℕ → World → Option Guard × World
  pub release : Guard → World → World

-- `BlockNumberProvider::current_block_number`, which the lock reads.
unfoldable pub current_block_number : {AccountId : Type 0} → State AccountId → ℕ
current_block_number s = s.block_number

-- `from_json` is `serde_json::from_str::<HackerNewsInfo>`, with the error forgotten.
module _ (host : Host) (from_json : List ℕ → Option HackerNewsInfo) where
  open host use {World, Pending, Response, timestamp, add_millis, send, try_wait, code, body}

  unfoldable pub fetch_from_remote : Run World Error (List ℕ)
  fetch_from_remote = do
    now ← lift timestamp
    let timeout = add_millis now fetch_timeout_period
    sent ← lift (send http_remote_request timeout)
    pending ← from_result (ok_or http_fetching_error sent)
    waited ← lift (try_wait pending timeout)
    received ← from_result (map_err (λ _. http_fetching_error) waited)
    response ← from_result (map_err (λ _. http_fetching_error) received)
    if code response == 200 then lift (body response) else from_result (err http_fetching_error)

  -- The part of `fetch_n_parse` after the request.
  unfoldable pub parse_info : List ℕ → Run World Error HackerNewsInfo
  parse_info resp_bytes = do
    resp_str ← from_result (ok_or deserialize_to_str_error (from_utf8 resp_bytes))
    from_result (ok_or deserialize_to_obj_error (from_json resp_str))

  unfoldable pub fetch_n_parse : Run World Error HackerNewsInfo
  unfolding parse_info
  fetch_n_parse = do
    resp_bytes ← map_run_err (λ _. http_fetching_error) fetch_from_remote
    parse_info resp_bytes

  module _ (storage : InfoStorage World) where
    open storage use {RetrievalError, Guard, get, set, try_lock, release}

    -- The match on what `fetch_n_parse` returns, under the lock.
    abbrev pub keep_info :
        Guard
        → Option (Result Error HackerNewsInfo × World)
        → Option (Result Error (Unit {0}) × World)
    keep_info guard none = none
    keep_info guard (some (ok info, w)) = some (ok tt, release guard (set info_key info w))
    keep_info guard (some (err e, w)) = some (err e, release guard w)

    unfoldable pub fetch_locked : ℕ → Run World Error (Unit {0})
    fetch_locked current_block w =
        let (guard, w') =
          try_lock lock_key current_block lock_block_expiration lock_timeout_expiration w in
        elim guard [ none ↦ some (ok tt, w') | some g ↦ keep_info g (fetch_n_parse w') ]

    -- The early return on a cached value; what would run otherwise comes last.
    abbrev pub unless_cached :
        Result RetrievalError (Option HackerNewsInfo)
        → World
        → Option (Result Error (Unit {0}) × World)
        → Option (Result Error (Unit {0}) × World)
    unless_cached (ok (some info)) w fetched = some (ok tt, w)
    unless_cached (ok none) w fetched = fetched
    unless_cached (err e) w fetched = fetched

    unfoldable pub fetch_remote_info :
        {AccountId : Type 0} → State AccountId → Run World Error (Unit {0})
    unfolding fetch_locked
    fetch_remote_info s w =
        unless_cached (get info_key w) w (fetch_locked (current_block_number s) w)
