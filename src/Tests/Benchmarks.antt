-- ===== src/Tests/Benchmarks.antt =====
-- The benchmarks of the runtime at a concrete input.
use substrate_node_template.Common.{
  ℕ, ◌≡◌, ◌≢◌, refl, Bool, true, false, String, Option, none, some, List, [], ◌∷◌, ◌++◌, Result, ok,
  err, arith, length,
}
use substrate_node_template.Runtime.Benchmarks.{
  Benchmarked, frame_system, pallet_balances, pallet_timestamp, pallet_template, Benchmarking,
  benchmark_metadata, dispatch_benchmark,
}
use substrate_node_template.Runtime.Benchmarks.Dispatched.{BenchmarkLaws, benchmarks_dispatched}

-- A request is `true` for pallet_template and `false` for a pallet without benchmarks; a batch is the
-- number of whitelisted keys.
abbrev requested : Bool → Option Benchmarked
requested true = some pallet_template
requested false = none

abbrev add : Bool → List (List ℕ) → Benchmarked → List ℕ → Result String (List ℕ)
add true keys pallet_template l = ok (l ++ (length keys ∷ []))
add config keys p l = ok l

abbrev lib : Benchmarking
lib = record {
  BenchmarkConfig = Bool;
  BenchmarkBatch = ℕ;
  BenchmarkList = Benchmarked;
  StorageInfo = Unit {0};
  hex = λ s. [];
  list_benchmark = λ extra p l. l ++ (p ∷ []);
  add_benchmark = add;
  storage_info = [];
}

add_ran :
    (config : Bool) (keys : List (List ℕ)) (p : Benchmarked) (l : List ℕ) (b : ℕ)
    → requested config ≡ some p
    → ◌≡◌ {A = Result String ℕ} (ok (length keys)) (ok b)
    → add config keys p l ≡ ok (l ++ (b ∷ []))
add_ran true keys pallet_template l b h e = ground (arith, e)
add_ran config keys p l b h e = absurd (ground arith)

add_stopped :
    (config : Bool) (keys : List (List ℕ)) (p : Benchmarked) (l : List ℕ) (e : String)
    → requested config ≡ some p
    → ◌≡◌ {A = Result String ℕ} (ok (length keys)) (err e)
    → add config keys p l ≡ err e
add_stopped config keys p l e h k = absurd (ground arith)

add_skipped :
    (config : Bool) (keys : List (List ℕ)) (p : Benchmarked) (l : List ℕ)
    → requested config ≢ some p
    → add config keys p l ≡ ok l
add_skipped true keys pallet_template l h = absurd (h refl)
add_skipped config keys p l h = refl

abbrev laws : BenchmarkLaws lib
laws = record {
  pallet = requested;
  run = λ config keys p. ok (length keys);
  entry = λ extra p. p;
  listed = λ extra p l. refl;
  ran = add_ran;
  stopped = add_stopped;
  skipped = add_skipped;
}

-- A request for a pallet without benchmarks.
unknown_pallet : dispatch_benchmark lib false ≡ err "Benchmark not found for this pallet."
unfolding dispatch_benchmark
unknown_pallet = refl

benchmarks_dispatched_example :
    (dispatch_benchmark lib true ≡ ok (5 ∷ []))
    × ((benchmark_metadata lib false).0
        ≡ frame_system ∷ pallet_balances ∷ pallet_timestamp ∷ pallet_template ∷ [])
benchmarks_dispatched_example = benchmarks_dispatched lib laws true false
