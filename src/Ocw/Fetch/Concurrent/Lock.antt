-- ===== src/Ocw/Fetch/Concurrent/Lock.antt =====
-- The lock of `fetch_remote_info` as the host has it: who holds it, and from when to when.
use substrate_node_template.Common.{ℕ, ◌+◌, ◌<◌, ◌≡◌, Option, none, some}
use substrate_node_template.Offchain.{Host}
use substrate_node_template.Offchain.Pool.{HostLaws}
use substrate_node_template.Ocw.Types.{HackerNewsInfo}
use substrate_node_template.Ocw.Fetch.{InfoStorage, info_key, lock_key}

-- Whose the lock is in a world, what time it is there, and when a guard was taken and expires.
pub record LockView (World Guard : Type 0) : Type 0 where
  pub holder : World → Option Guard
  pub clock : World → ℕ
  pub since : Guard → ℕ
  pub until : Guard → ℕ

-- What is documented of a storage lock with a deadline: it is given where it is free or the deadline
-- of its holder has passed, and whoever lets go of it frees it.
pub record LockLaws (host : Host) (storage : InfoStorage (Host.World host))
    (lock : LockView (Host.World host) (InfoStorage.Guard storage)) : Type 0 where
  pub takes :
      (b n m : ℕ) (w : Host.World host) {w' : Host.World host} {g : InfoStorage.Guard storage}
      → InfoStorage.try_lock storage lock_key b n m w ≡ (some g, w')
      → ((h : InfoStorage.Guard storage) → lock.holder w ≡ some h → lock.until h < lock.clock w)
        × (lock.holder w' ≡ some g)
        × (lock.since g ≡ lock.clock w)
        × (lock.until g ≡ lock.clock w + m)
  pub misses :
      (b n m : ℕ) (w : Host.World host) {w' : Host.World host}
      → InfoStorage.try_lock storage lock_key b n m w ≡ (none, w')
      → lock.holder w' ≡ lock.holder w
  pub frees :
      (g : InfoStorage.Guard storage) (w : Host.World host)
      → lock.holder (InfoStorage.release storage g w) ≡ none
  pub set_keeps :
      (i : HackerNewsInfo) (w : Host.World host)
      → lock.holder (InfoStorage.set storage info_key i w) ≡ lock.holder w
  pub host_laws : HostLaws host lock.holder
