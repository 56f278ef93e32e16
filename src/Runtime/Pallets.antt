-- ===== src/Runtime/Pallets.antt =====
-- `construct_runtime!` of runtime/src/lib.rs, for the pallets of this repository: one call type, one
-- dispatch and one validation of unsigned transactions over all of them.
pub mod Tags
use substrate_node_template.Common.{◌≡◌, refl, arith, ℕ, Bool, String, Result, ok, err}
use substrate_node_template.Frame.{
  System, Dispatch, done, failed, panicked, DispatchError, origin_error, module_error,
  InvalidTransaction, ValidTransaction,
}
use substrate_node_template.Runtime.{example_config}
use substrate_node_template.Template
use substrate_node_template.Template.Calls as TemplateCalls
use substrate_node_template.Ocw.Types.{Payload}
use substrate_node_template.Ocw.Types as OcwTypes
use substrate_node_template.Ocw.Calls as OcwCalls
use substrate_node_template.Ocw.Validity as OcwValidity
use substrate_node_template.ExampleOcw.Types.{PricePayload}
use substrate_node_template.ExampleOcw.Types as ExampleTypes
use substrate_node_template.ExampleOcw.Calls as ExampleCalls
use substrate_node_template.ExampleOcw.Validity as ExampleValidity

-- TemplateModule, OcwDemo and OcwExample
pub data RuntimeCall (Public Signature : Type 0) : Type 0 where
  template_module : TemplateCalls.Call → RuntimeCall Public Signature
  ocw_demo : OcwTypes.Call Public Signature → RuntimeCall Public Signature
  ocw_example : ExampleTypes.Call Public Signature → RuntimeCall Public Signature

pub data RuntimeError : Type 0 where
  template_error : Template.Error → RuntimeError
  ocw_error : OcwTypes.Error → RuntimeError

-- The storage of each pallet. The current block number is that of frame_system: each of the two
-- off-chain worker pallets has the copy that it reads.
pub record RuntimeState (AccountId : Type 0) : Type 0 where
  pub template : Template.State AccountId
  pub ocw : OcwTypes.State AccountId
  pub example : ExampleTypes.State AccountId

-- A `provides` tag is a text of pallet-ocw or a block number of the example pallet.
pub data RuntimeTag : Type 0 where
  text_tag : String → RuntimeTag
  block_tag : ℕ → RuntimeTag

-- An unsigned transaction is refused by a pallet, or its pallet validates none.
pub data Refusal : Type 0 where
  refused : InvalidTransaction → Refusal
  no_unsigned_validator : Refusal

abbrev pub tagged :
    {A B : Type 0}
    → (A → B)
    → Result InvalidTransaction (ValidTransaction A)
    → Result Refusal (ValidTransaction B)
tagged f (err e) = err (refused e)
tagged f (ok v) = ok (record {
  tag_prefix = v.tag_prefix;
  priority = v.priority;
  provides = f v.provides;
  longevity = v.longevity;
  propagate = v.propagate;
})

pub tagged_ok :
    {A B : Type 0} (f : A → B) (r : Result InvalidTransaction (ValidTransaction A))
    {v : ValidTransaction B}
    → tagged f r ≡ ok v
    → (w : ValidTransaction A) × (r ≡ ok w)
      × (v.tag_prefix ≡ w.tag_prefix)
      × (v.provides ≡ f w.provides)
tagged_ok f (ok w) e = (w, refl, ground arith, ground arith)
tagged_ok f (err x) e = absurd (ground arith)

-- The outcome of a pallet's call, in the runtime.
abbrev pub lifted : {E F S T : Type 0} → (E → F) → (S → T) → Dispatch E S → Dispatch F T
lifted f g (done s) = done (g s)
lifted f g (failed (origin_error e) s) = failed (origin_error e) (g s)
lifted f g (failed (module_error e) s) = failed (module_error (f e)) (g s)
lifted f g panicked = panicked

-- A lifted outcome succeeds exactly with what the pallet's outcome succeeds with.
pub lifted_done :
    {E F S T : Type 0} (f : E → F) (g : S → T) (d : Dispatch E S) {u : T}
    → lifted f g d ≡ done u
    → (s : S) × (d ≡ done s) × (u ≡ g s)
lifted_done f g (done s) e = (s, refl, ground arith)
lifted_done f g (failed (origin_error x) s) e = absurd (ground arith)
lifted_done f g (failed (module_error x) s) e = absurd (ground arith)
lifted_done f g panicked e = absurd (ground arith)

pub lifted_failed :
    {E F S T : Type 0} (f : E → F) (g : S → T) (d : Dispatch E S) {u : T} {e : DispatchError F}
    → lifted f g d ≡ failed e u
    → (s : S) × (x : DispatchError E) × (d ≡ failed x s) × (u ≡ g s)
lifted_failed f g (done s) h = absurd (ground arith)
lifted_failed f g (failed (origin_error x) s) h = (s, origin_error x, refl, ground arith)
lifted_failed f g (failed (module_error x) s) h = (s, module_error x, refl, ground arith)
lifted_failed f g panicked h = absurd (ground arith)

pub lifted_panicked :
    {E F S T : Type 0} (f : E → F) (g : S → T) (d : Dispatch E S)
    → lifted f g d ≡ panicked
    → d ≡ panicked
lifted_panicked f g (done s) h = absurd (ground arith)
lifted_panicked f g (failed (origin_error e) s) h = absurd (ground arith)
lifted_panicked f g (failed (module_error e) s) h = absurd (ground arith)
lifted_panicked f g panicked h = refl

module _ (sys : System) {Public Signature : Type 0} where
  open sys use {Origin, AccountId}

  unfoldable pub dispatch :
      RuntimeCall Public Signature
      → Origin
      → RuntimeState AccountId
      → Dispatch RuntimeError (RuntimeState AccountId)
  dispatch (template_module c) origin s =
      lifted template_error (λ t. record s { template = t })
        (TemplateCalls.dispatch sys c origin s.template)
  dispatch (ocw_demo c) origin s =
      lifted ocw_error (λ t. record s { ocw = t }) (OcwCalls.dispatch sys c origin s.ocw)
  dispatch (ocw_example c) origin s =
      lifted absurd (λ t. record s { example = t })
        (ExampleCalls.dispatch sys example_config c origin s.example)

  -- Of the three pallets, OcwDemo and OcwExample are listed with `ValidateUnsigned`.
  module _ (verify_ocw : Payload Public → Signature → Bool)
      (verify_example : PricePayload Public → Signature → Bool) where
    unfoldable pub validate_unsigned :
        RuntimeState AccountId
        → RuntimeCall Public Signature
        → Result Refusal (ValidTransaction RuntimeTag)
    validate_unsigned s (template_module c) = err no_unsigned_validator
    validate_unsigned s (ocw_demo c) = tagged text_tag (OcwValidity.validate_unsigned verify_ocw c)
    validate_unsigned s (ocw_example c) =
        tagged block_tag
          (ExampleValidity.validate_unsigned example_config verify_example s.example c)
