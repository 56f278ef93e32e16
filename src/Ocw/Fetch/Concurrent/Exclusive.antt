-- ===== src/Ocw/Fetch/Concurrent/Exclusive.antt =====
-- Of all runs that interleave, at most one is between the lock and its release.
use substrate_node_template.Common.{ℕ, ◌+◌, ◌<◌, ◌≤◌, ◌≡◌, Option, none, some, List}
use substrate_node_template.Offchain.{Host}
use substrate_node_template.Ocw.Types.{
  HackerNewsInfo, fetch_timeout_period, lock_timeout_expiration,
}
use substrate_node_template.Ocw.Fetch.Concurrent.Lock.{LockView}
use substrate_node_template.Ocw.Fetch.{InfoStorage}
use substrate_node_template.Ocw.Fetch.Concurrent.{
  Phase, fetching, storing, releasing, Reached, begun, moved, elsewhere,
}

-- Between the lock and its release.
abbrev pub InSection : {Guard : Type 0} → Phase Guard → Type 0
InSection (fetching g) = Unit
InSection (storing g r) = Unit
InSection (releasing g x) = Unit
InSection p = ⊥

-- In that section with a given guard.
abbrev pub Guards : {Guard : Type 0} → Guard → Phase Guard → Type 0
Guards g (fetching h) = h ≡ g
Guards g (storing h r) = h ≡ g
Guards g (releasing h x) = h ≡ g
Guards g p = ⊥

module _ (host : Host) (from_json : List ℕ → Option HackerNewsInfo)
    (storage : InfoStorage (Host.World host)) where
  open host use {World}
  open storage use {Guard}

  module _ (lock : LockView World Guard) where
    open lock use {holder, clock, since, until}

    -- The lock is free and no run is in the section, or one run alone is, with the guard of the lock.
    pub data IsExclusive (w : World) (f : ℕ → Phase Guard) : Type 0 where
      free : holder w ≡ none → ((j : ℕ) → ¬ InSection (f j)) → IsExclusive w f
      held :
          (i : ℕ) (g : Guard)
          → holder w ≡ some g
          → until g ≡ since g + lock_timeout_expiration
          → Guards g (f i)
          → ((j : ℕ) → InSection (f j) → j ≡ i)
          → IsExclusive w f

    -- No run has been in the section for longer than the timeout of its fetch and a second.
    abbrev pub IsQuick : World → (ℕ → Phase Guard) → Type 0
    IsQuick w f =
        (j : ℕ) (g : Guard) → Guards g (f j) → clock w ≤ since g + (fetch_timeout_period + 1000)

    -- The runs are quick at every move.
    abbrev pub AreQuick :
        {w₀ w : World} {f : ℕ → Phase Guard} → Reached host from_json storage holder w₀ w f → Type 0
    AreQuick begun = Unit
    AreQuick (moved {w = w} {f = f} i b r m) = AreQuick r × IsQuick w f
    AreQuick (elsewhere r same) = AreQuick r

    -- What a move does to the lock.
    data Effect (w : World) (p : Phase Guard) (w' : World) (p' : Phase Guard) : Type 0 where
      outside : ¬ InSection p → ¬ InSection p' → holder w' ≡ holder w → Effect w p w' p'
      enters :
          (g : Guard)
          → ((h : Guard) → holder w ≡ some h → until h < clock w)
          → holder w' ≡ some g
          → until g ≡ since g + lock_timeout_expiration
          → Guards g p'
          → Effect w p w' p'
      within :
          InSection p
          → ((g : Guard) → Guards g p → Guards g p')
          → holder w' ≡ holder w
          → Effect w p w' p'
      leaves : InSection p → ¬ InSection p' → holder w' ≡ none → Effect w p w' p'
