-- ===== src/Runtime/Whole/Refines.antt =====
-- A chain of the whole runtime as a chain of the three pallets.
use mathlib.Core.Path.{subst}
use substrate_node_template.Common.{
  ◌≡◌, refl, sym, inl, inr, Bool, true, false, arith, List, ◌∷◌, ok,
}
use substrate_node_template.Frame.{
  System, Dispatch, done, failed, panicked, origin_error, module_error,
}
use substrate_node_template.Ocw.Types.{Payload}
use substrate_node_template.ExampleOcw.Types.{PricePayload}
use substrate_node_template.Runtime.Pallets.{
  RuntimeCall, RuntimeState, RuntimeError, dispatch, lifted, lifted_done, lifted_failed,
}
use substrate_node_template.Runtime.Chain.{
  Run, start, next_block, signed, unsigned, rejected, IsEncodable,
}
use substrate_node_template.Runtime.Whole.{
  Whole, WholeCall, own, library_call, sudo_call, sudo_as_call, Library, LibraryLaws, Leaves,
  dispatch_whole, IsWholeEncodable, IsRawFree, HasNoRawWrites, WholeRun, begins, new_block, inside,
  sent, accepted, dropped,
}
use substrate_node_template.Runtime.Whole.Root.{root_refused}

module _ (sys : System) (lib : Library (System.Origin sys) (System.AccountId sys))
    (root : System.Origin sys) (signed_by : System.AccountId sys → System.Origin sys)
    (laws : LibraryLaws sys lib root signed_by) {Public Signature : Type 0}
    (verify_ocw : Payload Public → Signature → Bool)
    (verify_example : PricePayload Public → Signature → Bool) where
  open sys use {Origin, AccountId, ensure_signed}
  open lib use {LibraryCall, Storage, LibraryError, runtime_error}
  open laws use {signs, root_not_signed, root_not_none, library_keeps, sudo_runs, sudo_as_runs}

  abbrev PalletRun :
      RuntimeState AccountId → List (RuntimeCall Public Signature) → RuntimeState AccountId → Type 0
  PalletRun s l t = Run sys verify_ocw verify_example s l t

  -- The origins with which a call of a signed transaction can come to be dispatched, and whether it is
  -- root's.
  data Authority (origin : Origin) : Bool → Type 0 where
    of_signer : (who : AccountId) → ensure_signed origin ≡ ok who → Authority origin false
    of_root : origin ≡ root → Authority origin true

  own_done :
      (c : RuntimeCall Public Signature) (origin : Origin) (w : Whole AccountId Storage)
      (t : RuntimeState AccountId) {s : RuntimeState AccountId}
      {l : List (RuntimeCall Public Signature)} {as_root : Bool}
      → PalletRun s l w.pallets
      → IsEncodable c
      → Authority origin as_root
      → dispatch sys c origin w.pallets ≡ done t
      → PalletRun s l t
  own_done c origin w t r encodable (of_signer who sig) e = signed c origin who r encodable sig e
  own_done c origin w t r encodable (of_root same) e =
      absurd (root_refused sys root root_not_none root_not_signed c w.pallets t (rw same at e))

  own-Leaves :
      (c : RuntimeCall Public Signature) (origin : Origin) (w v : Whole AccountId Storage)
      {s : RuntimeState AccountId} {l : List (RuntimeCall Public Signature)} {as_root : Bool}
      → PalletRun s l w.pallets
      → IsEncodable c
      → Authority origin as_root
      → Leaves
          (lifted runtime_error (λ t. record w { pallets = t }) (dispatch sys c origin w.pallets))
          v
      → PalletRun s l v.pallets
  own-Leaves c origin w v {s} {l} r encodable auth left =
      go (dispatch sys c origin w.pallets) refl left
    where
      go :
          (d : Dispatch RuntimeError (RuntimeState AccountId))
          → dispatch sys c origin w.pallets ≡ d
          → Leaves (lifted runtime_error (λ t. record w { pallets = t }) d) v
          → PalletRun s l v.pallets
      go (done t) e same =
          subst (λ u. PalletRun s l u.pallets) same (own_done c origin w t r encodable auth e)
      go (failed (origin_error x) t) e same =
          subst (λ u. PalletRun s l u.pallets) same (rejected c origin r e)
      go (failed (module_error x) t) e same =
          subst (λ u. PalletRun s l u.pallets) same (rejected c origin r e)
      go panicked e same = absurd same

  library_stays :
      (c : LibraryCall) (origin : Origin) (w v : Whole AccountId Storage) {as_root : Bool}
      → Authority origin as_root
      → IsRawFree sys lib {Public = Public} {Signature = Signature} as_root (library_call c)
      → Leaves (Library.dispatch_library lib c origin w) v
      → v.pallets ≡ w.pallets
  library_stays c origin w v (of_signer who sig) free left =
      elim (library_keeps c origin w v left) [
        | inl same ↦ same
        | inr (rooted, raw) ↦ absurd (ground (arith, rw rooted at sig, root_not_signed))
      ]
  library_stays c origin w v (of_root same) free left = elim (library_keeps c origin w v left) [
    | inl same ↦ same
    | inr (rooted, raw) ↦ absurd (free raw)
  ]

  whole-Leaves :
      (c : WholeCall AccountId LibraryCall Public Signature) (origin : Origin)
      (w v : Whole AccountId Storage) {s : RuntimeState AccountId}
      {l : List (RuntimeCall Public Signature)} {as_root : Bool}
      → PalletRun s l w.pallets
      → IsWholeEncodable sys lib c
      → Authority origin as_root
      → IsRawFree sys lib as_root c
      → Leaves (dispatch_whole sys lib c origin w) v
      → PalletRun s l v.pallets
  unfolding dispatch_whole
  whole-Leaves (own c) origin w v r encodable auth free left =
      own-Leaves c origin w v r encodable auth left
  whole-Leaves (library_call c) origin w v {s} {l} r encodable auth free left =
      subst (PalletRun s l) (sym (library_stays c origin w v auth free left)) r
  whole-Leaves (sudo_call c) origin w v {s} {l} r encodable auth free left =
      elim (sudo_runs (dispatch_whole sys lib c) origin w v left) [
        | inl same ↦ subst (PalletRun s l) (sym same) r
        | inr (u, ran, same) ↦
            subst (PalletRun s l) (sym same)
              (whole-Leaves c root w u r encodable (of_root refl) free ran)
      ]
  whole-Leaves (sudo_as_call who c) origin w v {s} {l} r encodable auth free left =
      elim (sudo_as_runs who (dispatch_whole sys lib c) origin w v left) [
        | inl same ↦ subst (PalletRun s l) (sym same) r
        | inr (u, ran, same) ↦
            subst (PalletRun s l) (sym same)
              (whole-Leaves c (signed_by who) w u r encodable (of_signer who (signs who)) free ran)
      ]

  pub WholeRun-Run :
      {w₀ w : Whole AccountId Storage} {l : List (RuntimeCall Public Signature)}
      (r : WholeRun sys lib verify_ocw verify_example w₀ l w)
      → HasNoRawWrites sys lib verify_ocw verify_example r
      → Run sys verify_ocw verify_example w₀.pallets l w.pallets
  unfolding dispatch_whole
  WholeRun-Run begins free = start
  WholeRun-Run (new_block b library r later) free = next_block b (WholeRun-Run r free) later
  WholeRun-Run (inside library r) free = WholeRun-Run r free
  WholeRun-Run (sent {w = w} {v = v} c origin who r encodable sig left) (before, free) =
      whole-Leaves c origin w v (WholeRun-Run r before) encodable (of_signer who sig) free left
  WholeRun-Run {w₀} (accepted {l = l} {w = w} c origin r encodable valid e) free =
      let (t, inner, same) = lifted_done _ _ _ e in
      subst (λ u. Run sys verify_ocw verify_example w₀.pallets (c ∷ l) u.pallets) (sym same)
        (unsigned c origin (WholeRun-Run r free) encodable valid inner)
  WholeRun-Run {w₀} (dropped {l = l} {w = w} c origin r e) free =
      let (t, x, inner, same) = lifted_failed _ _ _ e in
      subst (λ u. Run sys verify_ocw verify_example w₀.pallets l u.pallets) (sym same)
        (rejected c origin (WholeRun-Run r free) inner)
