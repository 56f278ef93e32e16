-- ===== src/Runtime/Chain/Oracle.antt =====
-- The oracle within the runtime: what a chain of the runtime does to the price oracle.
use mathlib.Core.Path.{subst}
use substrate_node_template.Common.{ℕ, suc, ◌≡◌, sym, ap, Bool, List, [], ◌∷◌, ok}
use substrate_node_template.Frame.{System, done, ValidTransaction}
use substrate_node_template.Template.Calls as TemplateCalls
use substrate_node_template.Ocw.Types.{Payload}
use substrate_node_template.Ocw.Types as OcwTypes
use substrate_node_template.ExampleOcw.Types.{PricePayload}
use substrate_node_template.ExampleOcw.Types as ExampleTypes
use substrate_node_template.ExampleOcw.Calls as ExampleCalls
use substrate_node_template.ExampleOcw.Validity as ExampleValidity
use substrate_node_template.ExampleOcw.Chain as ExampleChain
use substrate_node_template.Runtime.{example_config}
use substrate_node_template.Runtime.Pallets.{
  RuntimeCall, template_module, ocw_demo, ocw_example, RuntimeState, RuntimeTag, tagged_ok,
  block_tag, lifted_done, dispatch, validate_unsigned,
}
use substrate_node_template.Runtime.Chain.Failed.{dispatch_unchanged}
use substrate_node_template.Runtime.Chain.{Run, start, next_block, signed, unsigned, rejected}

-- How many of the calls are the oracle's.
abbrev pub oracle_calls : {Public Signature : Type 0} → List (RuntimeCall Public Signature) → ℕ
oracle_calls [] = 0
oracle_calls (template_module c ∷ l) = oracle_calls l
oracle_calls (ocw_demo c ∷ l) = oracle_calls l
oracle_calls (ocw_example c ∷ l) = suc (oracle_calls l)

module _ (sys : System) {Public Signature : Type 0} (verify_ocw : Payload Public → Signature → Bool)
    (verify_example : PricePayload Public → Signature → Bool) where
  open sys use {Origin, AccountId}

  template_leaves :
      (c : TemplateCalls.Call) (origin : Origin) (t : RuntimeState AccountId)
      {u : RuntimeState AccountId}
      → dispatch sys {Public = Public} {Signature = Signature} (template_module c) origin t ≡ done u
      → u.example ≡ t.example
  unfolding dispatch
  template_leaves c origin t e = let (x, _, same) = lifted_done _ _ _ e in ap (λ w. w.example) same

  ocw_leaves :
      (c : OcwTypes.Call Public Signature) (origin : Origin) (t : RuntimeState AccountId)
      {u : RuntimeState AccountId}
      → dispatch sys {Public = Public} {Signature = Signature} (ocw_demo c) origin t ≡ done u
      → u.example ≡ t.example
  unfolding dispatch
  ocw_leaves c origin t e = let (x, _, same) = lifted_done _ _ _ e in ap (λ w. w.example) same

  oracle_applies :
      (c : ExampleTypes.Call Public Signature) (origin : Origin) (t : RuntimeState AccountId)
      {u : RuntimeState AccountId}
      → dispatch sys (ocw_example c) origin t ≡ done u
      → ExampleCalls.dispatch sys example_config c origin t.example ≡ done u.example
  unfolding dispatch
  oracle_applies c origin t e =
      let (x, d, same) = lifted_done _ _ _ e in
      subst (λ w. ExampleCalls.dispatch sys example_config c origin t.example ≡ done w)
        (ap (λ w. w.example) (sym same)) d

  pub oracle_validates :
      (c : ExampleTypes.Call Public Signature) (t : RuntimeState AccountId)
      {v : ValidTransaction RuntimeTag}
      → validate_unsigned sys verify_ocw verify_example t (ocw_example c) ≡ ok v
      → (w : ValidTransaction ℕ) × (ExampleValidity.validate_unsigned example_config verify_example
            t.example c
          ≡ ok w)
  unfolding validate_unsigned
  oracle_validates c t e = let (w, valid, _, _) = tagged_ok block_tag _ e in (w, valid)

  -- A chain of the oracle alone.
  abbrev OracleRun : ExampleTypes.State AccountId → ℕ → ExampleTypes.State AccountId → Type 0
  OracleRun s n t = ExampleChain.Run sys example_config verify_example s n t

  -- A call of another pallet leaves the oracle where it was.
  stays : {s t u : ExampleTypes.State AccountId} {n : ℕ} → u ≡ t → OracleRun s n t → OracleRun s n u
  stays {s} {n = n} same r = subst (OracleRun s n) (sym same) r

  -- Every chain of the runtime, failed transactions included, is for the price oracle a chain of the
  -- oracle alone that accepts as many unsigned transactions as the runtime accepts of the oracle's
  -- calls.
  pub Run-oracle :
      {s t : RuntimeState AccountId} {l : List (RuntimeCall Public Signature)}
      → Run sys verify_ocw verify_example s l t
      → ExampleChain.Run sys example_config verify_example s.example (oracle_calls l) t.example
  Run-oracle start = ExampleChain.start
  Run-oracle (next_block b r later) = ExampleChain.next_block b (Run-oracle r) later
  Run-oracle (signed {t = t} (template_module c) origin who r w o e) =
      stays (template_leaves c origin t e) (Run-oracle r)
  Run-oracle (signed {t = t} (ocw_demo c) origin who r w o e) =
      stays (ocw_leaves c origin t e) (Run-oracle r)
  Run-oracle (signed {t = t} (ocw_example c) origin who r w o e) =
      ExampleChain.signed c origin who (Run-oracle r) w o (oracle_applies c origin t e)
  Run-oracle (unsigned {t = t} (template_module c) origin r w v e) =
      stays (template_leaves c origin t e) (Run-oracle r)
  Run-oracle (unsigned {t = t} (ocw_demo c) origin r w v e) =
      stays (ocw_leaves c origin t e) (Run-oracle r)
  Run-oracle (unsigned {t = t} (ocw_example c) origin r w v e) =
      ExampleChain.unsigned c origin (Run-oracle r) w (oracle_validates c t v).1
        (oracle_applies c origin t e)
  Run-oracle (rejected {t = t} {u = u} {e = e} c origin r failure) =
      stays (ap (λ w. w.example) (dispatch_unchanged sys c origin t u e failure)) (Run-oracle r)
