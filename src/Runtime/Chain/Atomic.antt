-- ===== src/Runtime/Chain/Atomic.antt =====
-- That a transaction is applied or changes nothing, and that none panics.
use substrate_node_template.Common.{◌≡◌, ◌≢◌, ◌⊎◌, refl, ◌∙◌, ap, inl, inr, arith}
use substrate_node_template.Frame.{System, Dispatch, done, panicked, DispatchError, failed}
use substrate_node_template.Template.Calls as TemplateCalls
use substrate_node_template.Template as Template
use substrate_node_template.Ocw.Types as OcwTypes
use substrate_node_template.Ocw.Calls as OcwCalls
use substrate_node_template.Ocw.Calls.Effects.{dispatch-sender}
use substrate_node_template.ExampleOcw.Types as ExampleTypes
use substrate_node_template.ExampleOcw.Calls as ExampleCalls
use substrate_node_template.ExampleOcw.Calls.Effects.{dispatch-outcome}
use substrate_node_template.Runtime.{example_config}
use substrate_node_template.Runtime.Pallets.{
  RuntimeCall, template_module, ocw_demo, ocw_example, RuntimeError, RuntimeState, dispatch,
  lifted_panicked,
}
use substrate_node_template.Runtime.Chain.Failed.{dispatch_unchanged}

module _ (sys : System) where
  open sys use {Origin, AccountId}

  -- Each pallet answers every call.
  template-ne-panicked :
      (c : TemplateCalls.Call) (origin : Origin) (s : Template.State AccountId)
      → TemplateCalls.dispatch sys c origin s ≢ panicked
  unfolding TemplateCalls.dispatch Template.do_something Template.cause_error
  template-ne-panicked (TemplateCalls.do_something n) origin s h = ground arith
  template-ne-panicked TemplateCalls.cause_error origin s h = ground arith

  module _ {Public Signature : Type 0} where
    ocw-ne-panicked :
        (c : OcwTypes.Call Public Signature) (origin : Origin) (s : OcwTypes.State AccountId)
        → OcwCalls.dispatch sys c origin s ≢ panicked
    ocw-ne-panicked c origin s h = ground (arith, dispatch-sender sys c origin s)

    example-ne-panicked :
        (c : ExampleTypes.Call Public Signature) (origin : Origin)
        (s : ExampleTypes.State AccountId)
        → ExampleCalls.dispatch sys example_config c origin s ≢ panicked
    example-ne-panicked (ExampleTypes.Call.submit_price price) origin s h = ground (
      arith,
      dispatch-outcome sys example_config {Public = Public} {Signature = Signature}
          (ExampleTypes.Call.submit_price price) origin s,
    )
    example-ne-panicked c origin s h =
        ground (arith, dispatch-outcome sys example_config c origin s)

    dispatch-ne-panicked :
        (c : RuntimeCall Public Signature) (origin : Origin) (s : RuntimeState AccountId)
        → dispatch sys c origin s ≢ panicked
    unfolding dispatch
    dispatch-ne-panicked (template_module c) origin s h =
        template-ne-panicked c origin s.template (lifted_panicked _ _ _ h)
    dispatch-ne-panicked (ocw_demo c) origin s h =
        ocw-ne-panicked c origin s.ocw (lifted_panicked _ _ _ h)
    dispatch-ne-panicked (ocw_example c) origin s h =
        example-ne-panicked c origin s.example (lifted_panicked _ _ _ h)

    -- Every transaction, whatever its call, its origin and the storage that it meets, is applied or
    -- fails and changes nothing in the three pallets; none panics.
    pub dispatch_atomic :
        (c : RuntimeCall Public Signature) (origin : Origin) (s : RuntimeState AccountId)
        → ((t : RuntimeState AccountId) × (dispatch sys c origin s ≡ done t))
          ⊎ ((e : DispatchError RuntimeError) × (dispatch sys c origin s ≡ failed e s))
    dispatch_atomic c origin s = go (dispatch sys c origin s) refl
      where
        go :
            (d : Dispatch RuntimeError (RuntimeState AccountId))
            → dispatch sys c origin s ≡ d
            → ((t : RuntimeState AccountId) × (dispatch sys c origin s ≡ done t))
              ⊎ ((e : DispatchError RuntimeError) × (dispatch sys c origin s ≡ failed e s))
        go (done t) h = inl (t, h)
        go (failed e t) h =
            inr (e, h ∙ ap (λ u. failed e u) (dispatch_unchanged sys c origin s t e h))
        go panicked h = absurd (dispatch-ne-panicked c origin s h)
