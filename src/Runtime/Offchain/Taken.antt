-- ===== src/Runtime/Offchain/Taken.antt =====
-- What the runtime takes of the transactions in the pool, and what is documented of the workers' environment.
use mathlib.Core.Path.{subst}
use substrate_node_template.Common.{ℕ, ◌≡◌, sym, ap, Bool, String, Option, List, Result, ok}
use substrate_node_template.Frame.{System, ValidTransaction}
use substrate_node_template.Offchain.{
  Host, MutableStorage, Submitted, signed_tx, unsigned_tx, map_submitted,
}
use substrate_node_template.Offchain.Pool.{Image, HostLaws, SubmitterLaws}
use substrate_node_template.Ocw.Types as OcwTypes
use substrate_node_template.Ocw.Types.{Payload}
use substrate_node_template.Ocw.Fetch.Kept.{StorageLaws}
use substrate_node_template.Ocw.Worker.Accepted.{Passes}
use substrate_node_template.ExampleOcw.Types as ExampleTypes
use substrate_node_template.ExampleOcw.Types.{PricePayload}
use substrate_node_template.ExampleOcw.Validity.Window.{IsWelcome, validate_unsigned_iff}
use substrate_node_template.Runtime.{example_config}
use substrate_node_template.Runtime.Pallets.{
  RuntimeCall, template_module, ocw_demo, ocw_example, RuntimeState, RuntimeTag, tagged, text_tag,
  block_tag, validate_unsigned,
}
use substrate_node_template.Runtime.Offchain.{Environment}

-- The calls for a signed transaction.
abbrev pub IsSignedCall : {Public Signature : Type 0} → RuntimeCall Public Signature → Type 0
IsSignedCall (template_module c) = Unit
IsSignedCall (ocw_demo (OcwTypes.Call.submit_number_signed n)) = Unit
IsSignedCall (ocw_demo c) = ⊥
IsSignedCall (ocw_example (ExampleTypes.Call.submit_price price)) = Unit
IsSignedCall (ocw_example c) = ⊥

module _ (sys : System) {Public Signature : Type 0} (verify_ocw : Payload Public → Signature → Bool)
    (verify_example : PricePayload Public → Signature → Bool) where
  open sys use {AccountId}

  -- A signed transaction with a call for it, or an unsigned one that is valid.
  abbrev pub IsTaken : RuntimeState AccountId → Submitted (RuntimeCall Public Signature) → Type 0
  IsTaken s (signed_tx c) = IsSignedCall c
  IsTaken s (unsigned_tx c) =
      (v : ValidTransaction RuntimeTag) × (validate_unsigned sys verify_ocw verify_example s c
        ≡ ok v)

  pub ocw-IsTaken :
      (s : RuntimeState AccountId) (n : ℕ) (c : Submitted (OcwTypes.Call Public Signature))
      → Passes verify_ocw n c
      → IsTaken s (map_submitted ocw_demo c)
  unfolding validate_unsigned
  ocw-IsTaken s n (signed_tx (OcwTypes.Call.submit_number_signed m)) h = tt
  ocw-IsTaken s n (signed_tx (OcwTypes.Call.submit_number_unsigned m)) h = h
  ocw-IsTaken s n (signed_tx (OcwTypes.Call.submit_number_unsigned_with_signed_payload p g)) h = h
  ocw-IsTaken s n (unsigned_tx c) h = (_, ap (tagged text_tag) h.2)

  pub example-IsTaken :
      (s : RuntimeState AccountId) (c : Submitted (ExampleTypes.Call Public Signature))
      → IsWelcome example_config verify_example s.example c
      → IsTaken s (map_submitted ocw_example c)
  unfolding validate_unsigned
  example-IsTaken s (signed_tx (ExampleTypes.Call.submit_price price)) h = tt
  example-IsTaken s (signed_tx (ExampleTypes.Call.submit_price_unsigned b p)) h = h
  example-IsTaken s (signed_tx (ExampleTypes.Call.submit_price_unsigned_with_signed_payload p g))
        h =
      h
  example-IsTaken s (unsigned_tx c) h =
      let (v, valid) = (validate_unsigned_iff example_config verify_example s.example c).1 h in
      (_, ap (tagged block_tag) valid)

  pub Image-IsTaken :
      {A : Type 0} {P : Submitted A → Type 0} (s : RuntimeState AccountId)
      (embed : A → RuntimeCall Public Signature)
      → ((a : Submitted A) → P a → IsTaken s (map_submitted embed a))
      → (c : Submitted (RuntimeCall Public Signature)) → Image (map_submitted embed) P c
      → IsTaken s c
  Image-IsTaken s embed f c (a, e, p) = subst (IsTaken s) (sym e) (f a p)

-- What is documented of the node and the libraries: none of them but the two signers touches the pool,
-- which holds transactions with calls of the runtime.
pub record EnvironmentLaws {Public Signature : Type 0} (env : Environment Public Signature)
    (verify_ocw : Payload Public → Signature → Bool)
    (verify_example : PricePayload Public → Signature → Bool)
    (pool : Host.World (Environment.host env) → List (Submitted (RuntimeCall Public Signature)))
    : Type 0 where
  pub host_laws : HostLaws (Environment.host env) pool
  pub info_laws : StorageLaws (Environment.info_storage env) pool
  pub mutate_keeps :
      (key : String)
      (f : Result (MutableStorage.RetrievalError (Environment.price_storage env)) (Option ℕ)
        → Result (Unit {0}) ℕ)
      (w : Host.World (Environment.host env))
      → pool (MutableStorage.mutate (Environment.price_storage env) key f w).1 ≡ pool w
  pub ocw_laws : SubmitterLaws (Environment.ocw_submitter env) verify_ocw ocw_demo pool
  pub example_laws :
      SubmitterLaws (Environment.example_submitter env) verify_example ocw_example pool
