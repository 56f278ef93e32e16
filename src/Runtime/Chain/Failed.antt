-- ===== src/Runtime/Chain/Failed.antt =====
-- A failed transaction.
use substrate_node_template.Common.{◌≡◌, ◌∙◌, ap, inl, inr, arith}
use substrate_node_template.Frame.{System, DispatchError, failed}
use substrate_node_template.Template.Calls as TemplateCalls
use substrate_node_template.Template as Template
use substrate_node_template.Template.Increments.{failed_unchanged}
use substrate_node_template.Ocw.Types as OcwTypes
use substrate_node_template.Ocw.Calls as OcwCalls
use substrate_node_template.Ocw.Calls.Effects.{dispatch-sender}
use substrate_node_template.ExampleOcw.Types as ExampleTypes
use substrate_node_template.ExampleOcw.Calls as ExampleCalls
use substrate_node_template.ExampleOcw.Calls.Effects.{dispatch-outcome}
use substrate_node_template.Runtime.{example_config}
use substrate_node_template.Runtime.Pallets.{
  RuntimeCall, template_module, ocw_demo, ocw_example, RuntimeError, RuntimeState, dispatch,
  lifted_failed,
}

module _ (sys : System) where
  open sys use {Origin, AccountId}

  template_unchanged :
      (c : TemplateCalls.Call) (origin : Origin) (s t : Template.State AccountId)
      (e : DispatchError Template.Error)
      → TemplateCalls.dispatch sys c origin s ≡ failed e t
      → t ≡ s
  unfolding TemplateCalls.dispatch
  template_unchanged (TemplateCalls.do_something n) origin s t e h =
      failed_unchanged sys origin n s t e (inl h)
  template_unchanged TemplateCalls.cause_error origin s t e h =
      failed_unchanged sys origin 0 s t e (inr h)

  module _ {Public Signature : Type 0} where
    ocw_unchanged :
        (c : OcwTypes.Call Public Signature) (origin : Origin) (s t : OcwTypes.State AccountId)
        (e : DispatchError OcwTypes.Error)
        → OcwCalls.dispatch sys c origin s ≡ failed e t
        → t ≡ s
    ocw_unchanged c origin s t e h = ground (arith, dispatch-sender sys c origin s)

    example_unchanged :
        (c : ExampleTypes.Call Public Signature) (origin : Origin)
        (s t : ExampleTypes.State AccountId) (e : DispatchError ⊥)
        → ExampleCalls.dispatch sys example_config c origin s ≡ failed e t
        → t ≡ s
    example_unchanged (ExampleTypes.Call.submit_price price) origin s t e h = ground (
      arith,
      dispatch-outcome sys example_config {Public = Public} {Signature = Signature}
          (ExampleTypes.Call.submit_price price) origin s,
    )
    example_unchanged c origin s t e h =
        ground (arith, dispatch-outcome sys example_config c origin s)

    -- A transaction that fails in the runtime changes nothing in the three pallets, whatever its call,
    -- its origin and its error.
    pub dispatch_unchanged :
        (c : RuntimeCall Public Signature) (origin : Origin) (s t : RuntimeState AccountId)
        (e : DispatchError RuntimeError)
        → dispatch sys c origin s ≡ failed e t
        → t ≡ s
    unfolding dispatch
    dispatch_unchanged (template_module c) origin s t e h =
        let (x, y, inner, same) = lifted_failed _ _ _ h in
        same
        ∙ ap (λ w. record s { template = w }) (template_unchanged c origin s.template x y inner)
    dispatch_unchanged (ocw_demo c) origin s t e h =
        let (x, y, inner, same) = lifted_failed _ _ _ h in
        same ∙ ap (λ w. record s { ocw = w }) (ocw_unchanged c origin s.ocw x y inner)
    dispatch_unchanged (ocw_example c) origin s t e h =
        let (x, y, inner, same) = lifted_failed _ _ _ h in
        same ∙ ap (λ w. record s { example = w }) (example_unchanged c origin s.example x y inner)
