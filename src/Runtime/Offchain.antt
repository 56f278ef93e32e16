-- ===== src/Runtime/Offchain.antt =====
-- The off-chain workers in the runtime: `OffchainWorkerApi` of runtime/src/lib.rs, which runs the hooks
-- of the pallets, and `SendTransactionTypes`, by which what they submit are calls of the runtime.
pub mod Taken
pub mod Round
pub mod Waiting
use substrate_node_template.Common.{ℕ, Option, some, none, List, [], ◌∷◌}
use substrate_node_template.Offchain.{Host, MutableStorage, Submitter}
use substrate_node_template.Ocw.Types as OcwTypes
use substrate_node_template.Ocw.Types.{Payload, HackerNewsInfo}
use substrate_node_template.Ocw.Fetch.{InfoStorage}
use substrate_node_template.Ocw.Json.{Serde, info_from_json}
use substrate_node_template.Ocw.Worker as OcwWorker
use substrate_node_template.ExampleOcw.Types as ExampleTypes
use substrate_node_template.ExampleOcw.Types.{PricePayload}
use substrate_node_template.ExampleOcw.Parse.{LiteJson}
use substrate_node_template.ExampleOcw.Worker as ExampleWorker
use substrate_node_template.Runtime.{example_config}
use substrate_node_template.Runtime.Pallets.{RuntimeState}

-- What the two workers take from the node and the libraries.
pub record Environment (Public Signature : Type 0) : Type 1 where
  pub host : Host
  pub json : LiteJson
  pub serde : Serde
  pub info_storage : InfoStorage (Host.World host)
  pub price_storage : MutableStorage (Host.World host) ℕ
  -- the signers of the two pallets' key types
  pub ocw_submitter :
      Submitter (Host.World host) Public Signature (OcwTypes.Call Public Signature) (Payload Public)
  pub example_submitter :
      Submitter
        (Host.World host)
        Public
        Signature
        (ExampleTypes.Call Public Signature)
        (PricePayload Public)
  -- how many values a `usize` has
  pub usize_values : ℕ

-- The pallets with an off-chain worker.
pub data Hook : Type 0 where
  ocw_demo_hook ocw_example_hook : Hook

module _ {Public Signature : Type 0} (env : Environment Public Signature) where
  open env use {
    host, json, serde, info_storage, price_storage, ocw_submitter, example_submitter, usize_values,
  }
  open host use {World}

  module _ {AccountId : Type 0} where
    unfoldable pub run_hook : Hook → ℕ → RuntimeState AccountId → World → Option World
    run_hook ocw_demo_hook block_number s w =
        OcwWorker.offchain_worker host (info_from_json serde) info_storage ocw_submitter
          usize_values block_number s.ocw w
    run_hook ocw_example_hook block_number s w =
        ExampleWorker.offchain_worker host json example_submitter example_config price_storage
          block_number s.example w

    -- One round for a block: the hooks run one after the other, in the order in which the library goes
    -- through `AllPallets`; a panic ends the round.
    unfoldable pub offchain_worker : List Hook → ℕ → RuntimeState AccountId → World → Option World
    offchain_worker [] block_number s w = some w
    offchain_worker (h ∷ rest) block_number s w = elim (run_hook h block_number s w) [
      | none ↦ none
      | some w' ↦ offchain_worker rest block_number s w'
    ]
