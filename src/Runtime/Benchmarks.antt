-- ===== src/Runtime/Benchmarks.antt =====
-- The benchmarks of runtime/src/lib.rs (`impl frame_benchmarking::Benchmark`): which pallets can be
-- benchmarked, and what a request for one returns. The library runs them.
pub mod Dispatched
use substrate_node_template.Common.{
  ℕ, ◌≡◌, ◌≢◌, refl, Bool, String, Option, none, some, List, [], ◌∷◌, ◌++◌, Result, ok, err, map,
  Result-cases, inl, inr, arith,
}

-- The pallets in the order of the two lists, as `stringify!` names them: frame_system,
-- pallet_balances, pallet_timestamp and pallet_template.
pub data Benchmarked : Type 0 where
  frame_system pallet_balances pallet_timestamp pallet_template : Benchmarked

-- The macros of frame_benchmarking, `hex_literal::hex!` and `AllPalletsWithSystem::storage_info`.
-- `add_benchmark!` returns from `dispatch_benchmark` with the error of the benchmark that it runs.
pub record Benchmarking : Type 1 where
  pub BenchmarkConfig : Type 0
  pub BenchmarkBatch : Type 0
  pub BenchmarkList : Type 0
  pub StorageInfo : Type 0
  pub hex : String → List ℕ
  pub list_benchmark : Bool → Benchmarked → List BenchmarkList → List BenchmarkList
  pub add_benchmark :
      BenchmarkConfig
      → List (List ℕ)
      → Benchmarked
      → List BenchmarkBatch
      → Result String (List BenchmarkBatch)
  pub storage_info : List StorageInfo

module _ (lib : Benchmarking) where
  open lib use {
    BenchmarkConfig, BenchmarkBatch, BenchmarkList, StorageInfo, hex, list_benchmark, add_benchmark,
    storage_info,
  }

  unfoldable pub benchmark_metadata : Bool → List BenchmarkList × List StorageInfo
  benchmark_metadata extra =
      let list = list_benchmark extra frame_system [] in
      let list = list_benchmark extra pallet_balances list in
      let list = list_benchmark extra pallet_timestamp list in
      let list = list_benchmark extra pallet_template list in (list, storage_info)

  -- Block number, total issuance, execution phase, event count and system events.
  abbrev pub whitelist : List (List ℕ)
  whitelist =
      hex "26aa394eea5630e07c48ae0c9558cef702a5c1b19ab7a04f536c519aca4983ac"
      ∷ hex "c2261276cc9d1f8598ea4b6a74b15c2f57c875e4cff74148e4628f264b974c80"
      ∷ hex "26aa394eea5630e07c48ae0c9558cef7ff553b5a9862a516939d82b3d3d8661a"
      ∷ hex "26aa394eea5630e07c48ae0c9558cef70a98fdbe9ce6c55837576c60c7af3850"
      ∷ hex "26aa394eea5630e07c48ae0c9558cef780d41e5e16056765bc8461851072c9d7"
      ∷ []

  abbrev pub then_add :
      BenchmarkConfig
      → Benchmarked
      → Result String (List BenchmarkBatch)
      → Result String (List BenchmarkBatch)
  then_add config p (ok batches) = add_benchmark config whitelist p batches
  then_add config p (err e) = err e

  abbrev pub found : Result String (List BenchmarkBatch) → Result String (List BenchmarkBatch)
  found (ok []) = err "Benchmark not found for this pallet."
  found (ok (b ∷ bs)) = ok (b ∷ bs)
  found (err e) = err e

  unfoldable pub dispatch_benchmark : BenchmarkConfig → Result String (List BenchmarkBatch)
  dispatch_benchmark config =
      let batches = then_add config frame_system (ok []) in
      let batches = then_add config pallet_balances batches in
      let batches = then_add config pallet_timestamp batches in
      found (then_add config pallet_template batches)
