-- ===== src/Runtime/Whole/Root.antt =====
-- What root can do to the three pallets.
use substrate_node_template.Common.{◌≡◌, ◌≢◌, err, arith}
use substrate_node_template.Frame.{System, bad_origin, done}
use substrate_node_template.Template.Calls as TemplateCalls
use substrate_node_template.Template as Template
use substrate_node_template.Ocw.Types as OcwTypes
use substrate_node_template.Ocw.Calls as OcwCalls
use substrate_node_template.ExampleOcw.Types as ExampleTypes
use substrate_node_template.ExampleOcw.Calls as ExampleCalls
use substrate_node_template.Runtime.{example_config}
use substrate_node_template.Runtime.Pallets.{
  RuntimeCall, template_module, ocw_demo, ocw_example, RuntimeState, dispatch, lifted_done,
}

module _ (sys : System) (root : System.Origin sys)
    (unsigned : System.ensure_none sys root ≡ err bad_origin)
    (unnamed : System.ensure_signed sys root ≡ err bad_origin) where
  open sys use {AccountId}

  template_refuses :
      (c : TemplateCalls.Call) (s t : Template.State AccountId)
      → TemplateCalls.dispatch sys c root s ≢ done t
  unfolding TemplateCalls.dispatch Template.do_something Template.cause_error
  template_refuses (TemplateCalls.do_something n) s t h = ground (arith, rw unnamed at h)
  template_refuses TemplateCalls.cause_error s t h = ground (arith, rw unnamed at h)

  module _ {Public Signature : Type 0} where
    ocw_refuses :
        (c : OcwTypes.Call Public Signature) (s t : OcwTypes.State AccountId)
        → OcwCalls.dispatch sys c root s ≢ done t
    unfolding OcwCalls.dispatch OcwCalls.submit_number_signed OcwCalls.submit_number_unsigned
        OcwCalls.submit_number_unsigned_with_signed_payload
    ocw_refuses (OcwTypes.Call.submit_number_signed n) s t h = ground (arith, rw unnamed at h)
    ocw_refuses (OcwTypes.Call.submit_number_unsigned n) s t h = ground (arith, rw unsigned at h)
    ocw_refuses (OcwTypes.Call.submit_number_unsigned_with_signed_payload p g) s t h =
        ground (arith, rw unsigned at h)

    example_refuses :
        (c : ExampleTypes.Call Public Signature) (s t : ExampleTypes.State AccountId)
        → ExampleCalls.dispatch sys example_config c root s ≢ done t
    unfolding ExampleCalls.dispatch ExampleCalls.submit_price ExampleCalls.submit_price_unsigned
        ExampleCalls.submit_price_unsigned_with_signed_payload
    example_refuses (ExampleTypes.Call.submit_price p) s t h = ground (arith, rw unnamed at h)
    example_refuses (ExampleTypes.Call.submit_price_unsigned b p) s t h =
        ground (arith, rw unsigned at h)
    example_refuses (ExampleTypes.Call.submit_price_unsigned_with_signed_payload p g) s t h =
        ground (arith, rw unsigned at h)

    -- No call of the three pallets succeeds with an origin that is neither signed nor unsigned.
    pub root_refused :
        (c : RuntimeCall Public Signature) (s t : RuntimeState AccountId)
        → dispatch sys c root s ≢ done t
    unfolding dispatch
    root_refused (template_module c) s t h =
        let (u, inner, _) = lifted_done _ _ _ h in template_refuses c s.template u inner
    root_refused (ocw_demo c) s t h =
        let (u, inner, _) = lifted_done _ _ _ h in ocw_refuses c s.ocw u inner
    root_refused (ocw_example c) s t h =
        let (u, inner, _) = lifted_done _ _ _ h in example_refuses c s.example u inner
