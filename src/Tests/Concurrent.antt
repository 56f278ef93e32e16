-- ===== src/Tests/Concurrent.antt =====
-- Two runs of `fetch_remote_info` that interleave.
use substrate_node_template.Common.{
  ltb, ℕ, ◌+◌, ◌≡◌, ◌≢◌, ◌⊎◌, refl, ap, if◌then◌else◌, Option, none, some, List, [], ◌∷◌, ok, arith,
  update, from_utf8,
}
use substrate_node_template.Offchain.{Host}
use substrate_node_template.Ocw.Types.{State, HackerNewsInfo}
use substrate_node_template.Ocw.Fetch.{
  InfoStorage, info_key, fetch_from_remote, parse_info, fetch_n_parse,
}
use substrate_node_template.Ocw.Fetch.Concurrent.Lock.{LockView}
use substrate_node_template.Ocw.Fetch.Cache.{InfoLaws}
use substrate_node_template.Ocw.Fetch.Concurrent.{
  Phase, looking, trying, fetching, storing, releasing, returned, nothing_cached, busy, locked,
  fetched, kept, released, Reached, begun, moved, elsewhere,
}
use substrate_node_template.Ocw.Fetch.Concurrent.Stored.{IsFetched, Reached-cached}

-- The time, the lock with the time from which and until which it is held, and the cached information.
record Shared : Type 0 where
  time : ℕ
  lock : Option (ℕ × ℕ)
  value : Option HackerNewsInfo

abbrev host : Host
host = record {
  World = Shared;
  Pending = Unit {0};
  Response = List ℕ;
  timestamp = λ w. (Shared.time w, w);
  add_millis = λ t d. t + d;
  send = λ url d w. (some tt, w);
  try_wait = λ p d w. (ok (ok (b'{' ∷ b'}' ∷ [])), w);
  code = λ r. 200;
  body = λ r w. (r, w);
}

abbrev take : ℕ → Shared → Shared
take m w = record w { lock = some (Shared.time w, Shared.time w + m) }

-- The lock is given where it is free or its deadline has passed.
abbrev try_lock_of : ℕ → Option (ℕ × ℕ) → Shared → Option (ℕ × ℕ) × Shared
try_lock_of m none w = (some (Shared.time w, Shared.time w + m), take m w)
try_lock_of m (some g) w =
    if ltb g.1 (Shared.time w)
    then (some (Shared.time w, Shared.time w + m), take m w)
    else (none, w)

abbrev storage : InfoStorage Shared
storage = record {
  RetrievalError = Unit {0};
  Guard = ℕ × ℕ;
  get = λ key w. ok (Shared.value w);
  set = λ key i w. record w { value = some i };
  try_lock = λ key b n m w. try_lock_of m (Shared.lock w) w;
  release = λ g w. record w { lock = none };
}

abbrev info : HackerNewsInfo
info = record { by = b'x' ∷ []; title = b'y' ∷ []; url = []; descendants = 3 }

abbrev from_json : List ℕ → Option HackerNewsInfo
from_json text = some info

abbrev lock_view : LockView Shared (ℕ × ℕ)
lock_view = record { holder = Shared.lock; clock = Shared.time; since = λ g. g.0; until = λ g. g.1 }

abbrev idle : Shared
idle = record { time = 0; lock = none; value = none }

-- Run 0 has taken the lock at time 0, and two and a half seconds have passed.
abbrev held_since : Shared
held_since = record { time = 2500; lock = some (0, 4000); value = none }

-- Runs 0 and 1 find nothing cached, run 0 takes the lock, run 1 finds it held.
abbrev phases : ℕ → Phase (ℕ × ℕ)
phases =
    update (update (update (update (λ _. looking) 0 trying) 1 trying) 0 (fetching (0, 4000))) 1
      (returned (ok tt))

nothing_there : (i : HackerNewsInfo) → InfoStorage.get storage info_key idle ≢ ok (some i)
nothing_there i e = ground arith

module _ {V : Type 0} (view : Shared → V)
    (same : view held_since ≡ view (record held_since { time = 0 })) where
  abbrev two_runs : Reached host from_json storage view idle held_since phases
  two_runs =
      moved 1 6
        (elsewhere
          (moved 0 5
            (moved 1 5 (moved 0 5 begun (nothing_cached nothing_there))
              (nothing_cached nothing_there))
            (locked refl))
          same)
        (busy refl)

-- Run 0 fetches, stores and releases.
abbrev stored : Shared
stored = record { time = 2500; lock = none; value = some info }

abbrev phases_after : ℕ → Phase (ℕ × ℕ)
phases_after =
    update (update (update phases 0 (storing (0, 4000) (ok info))) 0 (releasing (0, 4000) (ok tt)))
      0 (returned (ok tt))

whole_run :
    Reached host from_json storage (InfoStorage.get storage info_key) idle stored phases_after
unfolding fetch_n_parse fetch_from_remote parse_info from_utf8
whole_run =
    moved 0 8
      (moved 0 7 (moved 0 6 (two_runs (InfoStorage.get storage info_key) refl) (fetched refl))
        (kept info))
      released

try_lock_value :
    (m : ℕ) (o : Option (ℕ × ℕ)) (w : Shared) → Shared.value (try_lock_of m o w).1 ≡ Shared.value w
try_lock_value m none w = refl
try_lock_value m (some g) w = ground arith

info_laws : InfoLaws host storage
info_laws = record {
  get-set = λ i w. refl;
  get-release = λ g w. refl;
  get-try_lock = λ b n m w. ap (λ v. ok v) (try_lock_value m (Shared.lock w) w);
  host_keeps = record {
    timestamp_keeps = λ w. refl;
    send_keeps = λ url d w. refl;
    wait_keeps = λ p d w. refl;
    body_keeps = λ r w. refl;
  };
}

Reached-cached_example :
    ((i : HackerNewsInfo)
      → InfoStorage.get storage info_key stored ≡ ok (some i)
      → (InfoStorage.get storage info_key idle ≡ ok (some i)) ⊎ IsFetched host from_json storage i)
    × ((i : HackerNewsInfo)
        → InfoStorage.get storage info_key idle ≡ ok (some i)
        → (k : HackerNewsInfo) × (InfoStorage.get storage info_key stored ≡ ok (some k)))
Reached-cached_example = Reached-cached host from_json storage info_laws whole_run

-- Nothing else happens.
abbrev at_once : Shared
at_once = record { time = 0; lock = none; value = some info }

abbrev block_five : State ℕ
block_five = record { block_number = 5; numbers = []; events = [] }
