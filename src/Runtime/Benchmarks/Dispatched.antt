-- ===== src/Runtime/Benchmarks/Dispatched.antt =====
-- What a request for a benchmark returns.
use substrate_node_template.Common.{
  ℕ, ◌≡◌, ◌≢◌, refl, Bool, String, Option, none, some, List, [], ◌∷◌, ◌++◌, Result, ok, err, map,
  Result-cases, inl, inr, arith,
}
use substrate_node_template.Runtime.Benchmarks.{
  Benchmarked, frame_system, pallet_balances, pallet_timestamp, pallet_template, Benchmarking,
  benchmark_metadata, whitelist, then_add, found, dispatch_benchmark,
}

-- What is documented of the two macros: a configuration names a pallet; `add_benchmark!` runs the
-- benchmark of its pallet alone and appends the batch, and `list_benchmark!` appends an entry.
pub record BenchmarkLaws (lib : Benchmarking) : Type 0 where
  pub pallet : Benchmarking.BenchmarkConfig lib → Option Benchmarked
  pub run :
      Benchmarking.BenchmarkConfig lib
      → List (List ℕ)
      → Benchmarked
      → Result String (Benchmarking.BenchmarkBatch lib)
  pub entry : Bool → Benchmarked → Benchmarking.BenchmarkList lib
  pub listed :
      (extra : Bool) (p : Benchmarked) (l : List (Benchmarking.BenchmarkList lib))
      → Benchmarking.list_benchmark lib extra p l ≡ l ++ (entry extra p ∷ [])
  pub ran :
      (config : Benchmarking.BenchmarkConfig lib) (keys : List (List ℕ)) (p : Benchmarked)
      (l : List (Benchmarking.BenchmarkBatch lib)) (b : Benchmarking.BenchmarkBatch lib)
      → pallet config ≡ some p
      → run config keys p ≡ ok b
      → Benchmarking.add_benchmark lib config keys p l ≡ ok (l ++ (b ∷ []))
  pub stopped :
      (config : Benchmarking.BenchmarkConfig lib) (keys : List (List ℕ)) (p : Benchmarked)
      (l : List (Benchmarking.BenchmarkBatch lib)) (e : String)
      → pallet config ≡ some p
      → run config keys p ≡ err e
      → Benchmarking.add_benchmark lib config keys p l ≡ err e
  pub skipped :
      (config : Benchmarking.BenchmarkConfig lib) (keys : List (List ℕ)) (p : Benchmarked)
      (l : List (Benchmarking.BenchmarkBatch lib))
      → pallet config ≢ some p
      → Benchmarking.add_benchmark lib config keys p l ≡ ok l

module _ (lib : Benchmarking) (laws : BenchmarkLaws lib) where
  open lib use {BenchmarkConfig, BenchmarkBatch}
  open laws use {pallet, run, entry, listed, ran, stopped, skipped}

  -- The batches with the one of a run behind them.
  abbrev appended :
      List BenchmarkBatch → Result String BenchmarkBatch → Result String (List BenchmarkBatch)
  appended l (ok b) = ok (l ++ (b ∷ []))
  appended l (err e) = err e

  -- What a request returns, by the pallet that it names.
  abbrev pub benchmark_of :
      BenchmarkConfig → Option Benchmarked → Result String (List BenchmarkBatch)
  benchmark_of config none = err "Benchmark not found for this pallet."
  benchmark_of config (some p) = appended [] (run config (whitelist lib) p)

  added :
      (config : BenchmarkConfig) (p : Benchmarked) (l : List BenchmarkBatch)
      → pallet config ≡ some p
      → then_add lib config p (ok l) ≡ appended l (run config (whitelist lib) p)
  added config p l h = elim (Result-cases (run config (whitelist lib) p)) [
    | inl (b, e) ↦ rw e (ran config (whitelist lib) p l b h e)
    | inr (x, e) ↦ rw e (stopped config (whitelist lib) p l x h e)
  ]

  passed :
      (config : BenchmarkConfig) (p : Benchmarked) (r : Result String (List BenchmarkBatch))
      → pallet config ≢ some p
      → then_add lib config p r ≡ r
  passed config p (ok l) h = skipped config (whitelist lib) p l h
  passed config p (err e) h = refl

  kept : (r : Result String BenchmarkBatch) → found lib (appended [] r) ≡ appended [] r
  kept (ok b) = refl
  kept (err e) = refl

  named :
      (config : BenchmarkConfig) (q : Option Benchmarked)
      → pallet config ≡ q
      → dispatch_benchmark lib config ≡ benchmark_of config q
  unfolding dispatch_benchmark
  named config none h =
      rw
        (
          passed config frame_system (ok []) (λ k. ground arith),
          passed config pallet_balances (ok []) (λ k. ground arith),
          passed config pallet_timestamp (ok []) (λ k. ground arith),
          passed config pallet_template (ok []) (λ k. ground arith),
        )
        refl
  named config (some frame_system) h =
      let r = appended [] (run config (whitelist lib) frame_system) in
      rw
        (
          added config frame_system [] h,
          passed config pallet_balances r (λ k. ground arith),
          passed config pallet_timestamp r (λ k. ground arith),
          passed config pallet_template r (λ k. ground arith),
        )
        (kept (run config (whitelist lib) frame_system))
  named config (some pallet_balances) h =
      let r = appended [] (run config (whitelist lib) pallet_balances) in
      rw
        (
          passed config frame_system (ok []) (λ k. ground arith),
          added config pallet_balances [] h,
          passed config pallet_timestamp r (λ k. ground arith),
          passed config pallet_template r (λ k. ground arith),
        )
        (kept (run config (whitelist lib) pallet_balances))
  named config (some pallet_timestamp) h =
      let r = appended [] (run config (whitelist lib) pallet_timestamp) in
      rw
        (
          passed config frame_system (ok []) (λ k. ground arith),
          passed config pallet_balances (ok []) (λ k. ground arith),
          added config pallet_timestamp [] h,
          passed config pallet_template r (λ k. ground arith),
        )
        (kept (run config (whitelist lib) pallet_timestamp))
  named config (some pallet_template) h =
      let r = appended [] (run config (whitelist lib) pallet_template) in
      rw
        (
          passed config frame_system (ok []) (λ k. ground arith),
          passed config pallet_balances (ok []) (λ k. ground arith),
          passed config pallet_timestamp (ok []) (λ k. ground arith),
          added config pallet_template [] h,
        )
        (kept (run config (whitelist lib) pallet_template))

  metadata_lists :
      (extra : Bool)
      → (benchmark_metadata lib extra).0
        ≡ map
            (entry extra)
            (frame_system ∷ pallet_balances ∷ pallet_timestamp ∷ pallet_template ∷ [])
  unfolding benchmark_metadata
  metadata_lists extra =
      rw
        (
          listed extra frame_system [],
          listed extra pallet_balances (map (entry extra) (frame_system ∷ [])),
          listed extra pallet_timestamp (map (entry extra) (frame_system ∷ pallet_balances ∷ [])),
          listed extra pallet_template
              (map (entry extra) (frame_system ∷ pallet_balances ∷ pallet_timestamp ∷ [])),
        )
        refl

  -- A request for a benchmark runs the benchmark of the pallet that it names, and no other, with the
  -- five whitelisted keys: it returns that one batch, or the error of the run; a request that names
  -- none of the four pallets gets the error that there is no benchmark. The metadata list these four,
  -- in order, for the given flag. So if the library's macros do as documented.
  pub benchmarks_dispatched :
      (config : BenchmarkConfig) (extra : Bool)
      → (dispatch_benchmark lib config ≡ benchmark_of config (pallet config))
        × ((benchmark_metadata lib extra).0
            ≡ map
                (entry extra)
                (frame_system ∷ pallet_balances ∷ pallet_timestamp ∷ pallet_template ∷ []))
  benchmarks_dispatched config extra = (named config (pallet config) refl, metadata_lists extra)
