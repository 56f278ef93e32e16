-- ===== src/Runtime/Chain/Invariant.antt =====
-- What holds of the storage of the three pallets after every chain of the runtime.
use mathlib.Core.Path.{subst}
use substrate_node_template.Common.{sym, ◌≡◌, refl, ◌∙◌, Bool, List, arith}
use substrate_node_template.Frame.{System, done}
use substrate_node_template.Template.Bounds.{IsWord, dispatch-IsWord}
use substrate_node_template.Ocw.Types as OcwTypes
use substrate_node_template.Ocw.Types.{Payload}
use substrate_node_template.Ocw.Calls as OcwCalls
use substrate_node_template.Ocw.Numbers.Bounds.{push_number-IsBounded}
use substrate_node_template.Ocw.Numbers.Bounds as Numbers
use substrate_node_template.Ocw.Numbers.{push_number}
use substrate_node_template.Ocw.Calls.Effects.{number_of, dispatch-sender}
use substrate_node_template.ExampleOcw.Types.{PricePayload}
use substrate_node_template.ExampleOcw.Prices.Bounds as Prices
use substrate_node_template.ExampleOcw.Calls.Effects.{dispatch-IsBounded, prices-dispatch}
use substrate_node_template.Runtime.{example_config}
use substrate_node_template.Runtime.Pallets.{
  RuntimeCall, template_module, ocw_demo, ocw_example, RuntimeState, lifted_done, dispatch,
}
use substrate_node_template.Runtime.Chain.Failed.{dispatch_unchanged}
use substrate_node_template.Runtime.Chain.{
  Run, start, next_block, signed, unsigned, rejected, IsEncodable,
}

-- The number of pallet-template is a u32. pallet-ocw has at most ten numbers, each a u64. The oracle
-- has at most 64 prices, each a u32. The two worker pallets read the same block number.
pub record IsWellFormed {AccountId : Type 0} (s : RuntimeState AccountId) : Type 0 where
  pub something : IsWord s.template.something
  pub numbers : Numbers.IsBounded s.ocw.numbers
  pub prices : Prices.IsBounded s.example.prices
  pub same_block : s.ocw.block_number ≡ s.example.block_number

module _ (sys : System) {Public Signature : Type 0} where
  open sys use {Origin, AccountId}

  pub numbers-dispatch :
      (c : OcwTypes.Call Public Signature) (origin : Origin) (s : OcwTypes.State AccountId)
      {t : OcwTypes.State AccountId}
      → OcwCalls.dispatch sys c origin s ≡ done t
      → (t.numbers ≡ push_number s.numbers (number_of c)) × (t.block_number ≡ s.block_number)
  numbers-dispatch c origin s e = ground (arith, dispatch-sender sys c origin s)

  pub dispatch-IsWellFormed :
      (c : RuntimeCall Public Signature) (origin : Origin) (s : RuntimeState AccountId)
      {u : RuntimeState AccountId}
      → IsEncodable c
      → dispatch sys c origin s ≡ done u
      → IsWellFormed s
      → IsWellFormed u
  unfolding dispatch
  dispatch-IsWellFormed (template_module c) origin s word e h =
      let (t, d, same) = lifted_done _ _ _ e in
      let h' : IsWellFormed (record s { template = t }) = record {
        something = dispatch-IsWord sys c origin s.template word d;
        numbers = h.numbers;
        prices = h.prices;
        same_block = h.same_block;
      } in
      subst IsWellFormed (sym same) h'
  dispatch-IsWellFormed (ocw_demo c) origin s word e h =
      let (t, d, same) = lifted_done _ _ _ e in
      let (pushed, block) = numbers-dispatch c origin s.ocw d in
      let h' : IsWellFormed (record s { ocw = t }) = record {
        something = h.something;
        numbers = rw pushed (push_number-IsBounded s.ocw.numbers (number_of c) word h.numbers);
        prices = h.prices;
        same_block = block ∙ h.same_block;
      } in
      subst IsWellFormed (sym same) h'
  dispatch-IsWellFormed (ocw_example c) origin s word e h =
      let (t, d, same) = lifted_done _ _ _ e in
      let h' : IsWellFormed (record s { example = t }) = record {
        something = h.something;
        numbers = h.numbers;
        prices = dispatch-IsBounded sys example_config c origin s.example word h.prices d;
        same_block = h.same_block ∙ sym (prices-dispatch sys example_config c origin s.example d).1;
      } in
      subst IsWellFormed (sym same) h'

  -- From a well-formed storage every chain of the runtime on which all applied calls carry numbers
  -- of their types, failed transactions included, comes to a well-formed one: the template's number is a u32, pallet-ocw keeps at most ten
  -- numbers, each a u64, the oracle at most 64 prices, each a u32, and both pallets read the same
  -- block number.
  pub Run-IsWellFormed :
      (verify_ocw : Payload Public → Signature → Bool)
      (verify_example : PricePayload Public → Signature → Bool) {s t : RuntimeState AccountId}
      {l : List (RuntimeCall Public Signature)}
      → Run sys verify_ocw verify_example s l t
      → IsWellFormed s
      → IsWellFormed t
  Run-IsWellFormed v w start h = h
  Run-IsWellFormed v w (next_block b r later) h =
      let k = Run-IsWellFormed v w r h in
      record { something = k.something; numbers = k.numbers; prices = k.prices; same_block = refl }
  Run-IsWellFormed v w (signed {t = t} c origin who r word o e) h =
      dispatch-IsWellFormed c origin t word e (Run-IsWellFormed v w r h)
  Run-IsWellFormed v w (unsigned {t = t} c origin r word k e) h =
      dispatch-IsWellFormed c origin t word e (Run-IsWellFormed v w r h)
  Run-IsWellFormed v w (rejected {t = t} {u = u} {e = e} c origin r failure) h =
      subst IsWellFormed (sym (dispatch_unchanged sys c origin t u e failure))
        (Run-IsWellFormed v w r h)
