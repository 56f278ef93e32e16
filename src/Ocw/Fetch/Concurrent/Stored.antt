-- ===== src/Ocw/Fetch/Concurrent/Stored.antt =====
-- What is cached while runs interleave.
use mathlib.Core.Path.{subst}
use native.Mathlib.Decide.{ℕ_discrete}
use substrate_node_template.Common.{
  ℕ, ◌≡◌, ◌∙◌, sym, ap, refl, ◌⊎◌, inl, inr, Option, some, List, ok, err, arith, update,
  update_self, update_other,
}
use substrate_node_template.Offchain.{Host}
use substrate_node_template.Ocw.Types.{HackerNewsInfo}
use substrate_node_template.Ocw.Fetch.{InfoStorage, info_key, fetch_n_parse}
use substrate_node_template.Ocw.Fetch.Kept.{fetch_n_parse-Keeps}
use substrate_node_template.Ocw.Fetch.Cache.{InfoLaws}
use substrate_node_template.Ocw.Fetch.Concurrent.{
  Phase, storing, Move, cached, nothing_cached, busy, locked, fetched, kept, lost, released,
  Reached, begun, moved, elsewhere,
}

module _ (host : Host) (from_json : List ℕ → Option HackerNewsInfo)
    (storage : InfoStorage (Host.World host)) where
  open host use {World}
  open storage use {Guard, get}

  -- Some fetch has given the information.
  abbrev pub IsFetched : HackerNewsInfo → Type 0
  IsFetched i = (w : World) × (w' : World) × (fetch_n_parse host from_json w ≡ some (ok i, w'))

  -- A run that is about to store has fetched what it stores.
  abbrev IsSound : Phase Guard → Type 0
  IsSound (storing g (ok i)) = IsFetched i
  IsSound p = Unit

  -- What can become of the cached information: it stays, or fetched information takes its place.
  abbrev Next : World → World → Type 0
  Next w w' =
      (get info_key w' ≡ get info_key w)
      ⊎ ((i : HackerNewsInfo) × IsFetched i × (get info_key w' ≡ ok (some i)))

  module _ (laws : InfoLaws host storage) where
    open laws use {get-set, get-release, get-try_lock, host_keeps}

    Move-Next :
        (b : ℕ) (w w' : World) (p p' : Phase Guard)
        → Move host from_json storage b w p w' p'
        → IsSound p
        → Next w w' × IsSound p'
    Move-Next b w w' p p' (cached i e) sound = (inl refl, tt)
    Move-Next b w w' p p' (nothing_cached fresh) sound = (inl refl, tt)
    Move-Next b w w' p p' (busy e) sound =
        (inl (ap (λ q. get info_key q.1) (sym e) ∙ get-try_lock b _ _ w), tt)
    Move-Next b w w' p p' (locked e) sound =
        (inl (ap (λ q. get info_key q.1) (sym e) ∙ get-try_lock b _ _ w), tt)
    Move-Next b w w' p p' (fetched {g = g} {r = ok i} e) sound = (
      inl (fetch_n_parse-Keeps host (get info_key) host_keeps from_json w w' (ok i) e),
      (w, w', e),
    )
    Move-Next b w w' p p' (fetched {g = g} {r = err z} e) sound =
        (inl (fetch_n_parse-Keeps host (get info_key) host_keeps from_json w w' (err z) e), tt)
    Move-Next b w w' p p' (kept i) sound = (inr (i, sound, get-set i w), tt)
    Move-Next b w w' p p' (lost e) sound = (inl refl, tt)
    Move-Next b w w' p p' (released {g = g}) sound = (inl (get-release g w), tt)

    record Inv (w₀ w : World) (f : ℕ → Phase Guard) : Type 0 where
      pub sound : (j : ℕ) → IsSound (f j)
      pub origin :
          (i : HackerNewsInfo)
          → get info_key w ≡ ok (some i)
          → (get info_key w₀ ≡ ok (some i)) ⊎ IsFetched i
      pub lasts :
          (i : HackerNewsInfo)
          → get info_key w₀ ≡ ok (some i)
          → (k : HackerNewsInfo) × (get info_key w ≡ ok (some k))

    Next-Inv :
        (w₀ w w' : World) (f : ℕ → Phase Guard) (i : ℕ) (p' : Phase Guard)
        → Next w w'
        → IsSound p'
        → Inv w₀ w f
        → Inv w₀ w' (update f i p')
    Next-Inv w₀ w w' f i p' next sound' inv = record {
      sound = λ j. elim (ℕ_discrete i j) [
        | yes same ↦ subst IsSound (sym (ap (update f i p') (sym same) ∙ update_self f i p')) sound'
        | no other ↦ subst IsSound (sym (update_other f i j p' other)) (inv.sound j)
      ];
      origin = λ k at. elim next [
        | inl same ↦ inv.origin k (sym same ∙ at)
        | inr (m, good, stored) ↦ inr (subst IsFetched (ground arith) good)
      ];
      lasts = λ k at. elim next [
        | inl same ↦ let (m, h) = inv.lasts k at in (m, same ∙ h)
        | inr (m, good, stored) ↦ (m, stored)
      ];
    }

    Reached-Inv :
        {w₀ w : World} {f : ℕ → Phase Guard}
        → Reached host from_json storage (get info_key) w₀ w f
        → Inv w₀ w f
    Reached-Inv begun = record { sound = λ j. tt; origin = λ i at. inl at; lasts = λ i at. (i, at) }
    Reached-Inv {w₀} (moved {w = w} {w' = w'} {f = f} {p = p} i b r m) =
        let inv = Reached-Inv r in
        let (next, sound') = Move-Next b w w' (f i) p m (inv.sound i) in
        Next-Inv w₀ w w' f i p next sound' inv
    Reached-Inv (elsewhere r same) =
        let inv = Reached-Inv r in
        record {
          sound = inv.sound;
          origin = λ i at. inv.origin i (sym same ∙ at);
          lasts = λ i at. let (k, h) = inv.lasts i at in (k, same ∙ h);
        }

    -- Runs of `fetch_remote_info` interleave in any way, each from its beginning, while other things
    -- happen that leave the cached information alone, and the storage and the host obey `InfoLaws`.
    -- Then whatever is cached at some moment was cached in the beginning or is what a fetch gave, and
    -- if something was cached in the beginning something still is.
    pub Reached-cached :
        {w₀ w : World} {f : ℕ → Phase Guard}
        → Reached host from_json storage (get info_key) w₀ w f
        → ((i : HackerNewsInfo)
            → get info_key w ≡ ok (some i)
            → (get info_key w₀ ≡ ok (some i)) ⊎ IsFetched i)
          × ((i : HackerNewsInfo)
              → get info_key w₀ ≡ ok (some i)
              → (k : HackerNewsInfo) × (get info_key w ≡ ok (some k)))
    Reached-cached r = let inv = Reached-Inv r in (inv.origin, inv.lasts)
