-- ===== src/Runtime/Chain/Numbers.antt =====
-- pallet-ocw within the runtime: what a chain of the runtime does to the stored numbers.
use substrate_node_template.Common.{ℕ, ◌≡◌, ap, ◌∙◌, Bool, List, [], ◌∷◌, ◌++◌, take_last}
use mathlib.Core.List.{append_assoc, append-nil}
use substrate_node_template.Frame.{System, done}
use substrate_node_template.Ocw.Types.{Payload, num_vec_len}
use substrate_node_template.Ocw.Numbers.{push_number}
use substrate_node_template.Ocw.Numbers.Recent.{push_number-take_last}
use substrate_node_template.Ocw.Calls.Effects.{number_of}
use substrate_node_template.ExampleOcw.Types.{PricePayload}
use substrate_node_template.Runtime.Pallets.{
  RuntimeCall, template_module, ocw_demo, ocw_example, RuntimeState, lifted_done, dispatch,
}
use substrate_node_template.Runtime.Chain.Failed.{dispatch_unchanged}
use substrate_node_template.Runtime.Chain.Invariant.{numbers-dispatch}
use substrate_node_template.Runtime.Chain.{Run, start, next_block, signed, unsigned, rejected}

-- The numbers that a call brings to pallet-ocw, if it is applied.
abbrev pub brings : {Public Signature : Type 0} → RuntimeCall Public Signature → List ℕ
brings (template_module c) = []
brings (ocw_demo c) = number_of c ∷ []
brings (ocw_example c) = []

-- pallet-ocw stores the last ten numbers of a history.
abbrev Recent : {AccountId : Type 0} → RuntimeState AccountId → List ℕ → Type 0
Recent t history = t.ocw.numbers ≡ take_last num_vec_len history

module _ (sys : System) {Public Signature : Type 0} where
  open sys use {Origin, AccountId}

  applied-Recent :
      (c : RuntimeCall Public Signature) (origin : Origin) (t : RuntimeState AccountId)
      {u : RuntimeState AccountId} (history : List ℕ)
      → dispatch sys c origin t ≡ done u
      → Recent t history
      → Recent u (history ++ brings c)
  unfolding dispatch
  applied-Recent (template_module c) origin t history e h =
      let (x, _, same) = lifted_done _ _ _ e in rw append-nil (ap (λ w. w.ocw.numbers) same ∙ h)
  applied-Recent (ocw_demo c) origin t history e h =
      let (x, d, same) = lifted_done _ _ _ e in
      ap (λ w. w.ocw.numbers) same
      ∙ (numbers-dispatch sys c origin t.ocw d).0
      ∙ ap (λ l. push_number l (number_of c)) h
      ∙ push_number-take_last history (number_of c)
  applied-Recent (ocw_example c) origin t history e h =
      let (x, _, same) = lifted_done _ _ _ e in rw append-nil (ap (λ w. w.ocw.numbers) same ∙ h)

  module _ (verify_ocw : Payload Public → Signature → Bool)
      (verify_example : PricePayload Public → Signature → Bool) where
    -- The numbers that the applied transactions of a chain bring, in order.
    pub numbers_of :
        {s t : RuntimeState AccountId} {l : List (RuntimeCall Public Signature)}
        → Run sys verify_ocw verify_example s l t
        → List ℕ
    numbers_of start = []
    numbers_of (next_block b r later) = numbers_of r
    numbers_of (signed c origin who r word o e) = numbers_of r ++ brings c
    numbers_of (unsigned c origin r word v e) = numbers_of r ++ brings c
    numbers_of (rejected c origin r failure) = numbers_of r

    -- After every chain of the runtime, failed transactions and calls of the other pallets included,
    -- pallet-ocw stores the last ten of the numbers that its applied transactions brought, signed or
    -- not, those from before the chain included.
    pub numbers-Run :
        {s t : RuntimeState AccountId} {l : List (RuntimeCall Public Signature)} (before : List ℕ)
        (r : Run sys verify_ocw verify_example s l t)
        → s.ocw.numbers ≡ take_last num_vec_len before
        → t.ocw.numbers ≡ take_last num_vec_len (before ++ numbers_of r)
    unfolding numbers_of
    numbers-Run before start h = rw append-nil h
    numbers-Run before (next_block b r later) h = numbers-Run before r h
    numbers-Run before (signed {t = t} c origin who r word o e) h =
        applied-Recent c origin t (before ++ numbers_of r) e (numbers-Run before r h)
        ∙ ap (take_last num_vec_len) (append_assoc before (numbers_of r) (brings c))
    numbers-Run before (unsigned {t = t} c origin r word v e) h =
        applied-Recent c origin t (before ++ numbers_of r) e (numbers-Run before r h)
        ∙ ap (take_last num_vec_len) (append_assoc before (numbers_of r) (brings c))
    numbers-Run before (rejected {t = t} {u = u} {e = e} c origin r failure) h =
        ap (λ w. w.ocw.numbers) (dispatch_unchanged sys c origin t u e failure)
        ∙ numbers-Run before r h
