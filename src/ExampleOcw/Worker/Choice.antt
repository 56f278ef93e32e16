-- ===== src/ExampleOcw/Worker/Choice.antt =====
-- Which kind of transaction a run of the worker sends.
use substrate_node_template.Common.{ℕ, ◌≢◌, arith, Result, ok, err}
use substrate_node_template.Offchain.{
  MutableStorage, MutateStorageError, value_function_failed, concurrent_modification,
}
use substrate_node_template.ExampleOcw.Types.{Config, raw}
use substrate_node_template.ExampleOcw.Worker.{
  last_send_key, type_of_mutation, choose_transaction_type, next_last_send,
}

type_of_mutation-ne-raw :
    (res : Result (MutateStorageError ℕ (Unit {0})) ℕ) → type_of_mutation res ≢ raw
unfolding type_of_mutation
type_of_mutation-ne-raw (ok b) h = ground arith
type_of_mutation-ne-raw (err (value_function_failed x)) h = ground arith
type_of_mutation-ne-raw (err (concurrent_modification v)) h = ground arith

-- A run never sends the raw kind of transaction, whatever its block number and however the local
-- storage behaves.
pub choose-ne-raw :
    (config : Config) {World : Type 0} (storage : MutableStorage World ℕ) (b : ℕ) (w : World)
    → (choose_transaction_type config storage b w).0 ≢ raw
unfolding choose_transaction_type
choose-ne-raw config storage b w =
    type_of_mutation-ne-raw
      (MutableStorage.mutate storage last_send_key (next_last_send config storage b) w).0
