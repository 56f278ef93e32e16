-- ===== src/Runtime/Offchain/Round.antt =====
-- What a round of the off-chain workers puts into the pool, and that it returns.
use substrate_node_template.Common.{
  ℕ, ◌≤◌, ◌≡◌, refl, inl, inr, Bool, some, List, [], ◌∷◌, arith, Option-cases,
}
use substrate_node_template.Frame.{System}
use substrate_node_template.Offchain.{Submitted}
use substrate_node_template.Offchain.Pool.{Adds, Adds-Keeps, Adds-map, Adds-trans}
use substrate_node_template.Ocw.Types.{Payload}
use substrate_node_template.Ocw.Json.{info_from_json}
use substrate_node_template.Ocw.Worker as OcwWorker
use substrate_node_template.Ocw.Worker.Accepted.{worker_result-Adds}
use substrate_node_template.ExampleOcw.Types.{PricePayload}
use substrate_node_template.ExampleOcw.Worker as ExampleWorker
use substrate_node_template.ExampleOcw.Worker.{
  choose_transaction_type, send, last_send_key, next_last_send,
}
use substrate_node_template.ExampleOcw.Worker.Accepted.{send-Adds}
use substrate_node_template.Runtime.{example_config}
use substrate_node_template.Runtime.Pallets.{RuntimeCall, ocw_demo, ocw_example, RuntimeState}
use substrate_node_template.Runtime.Offchain.Taken.{
  IsTaken, EnvironmentLaws, Image-IsTaken, ocw-IsTaken, example-IsTaken,
}
use substrate_node_template.Runtime.Offchain.{
  Environment, Hook, ocw_demo_hook, ocw_example_hook, run_hook, offchain_worker,
}

module _ (sys : System) {Public Signature : Type 0} (env : Environment Public Signature) where
  open sys use {AccountId}
  open env use {
    host, json, serde, info_storage, price_storage, ocw_submitter, example_submitter, usize_values,
  }
  open host use {World}

  module _ (verify_ocw : Payload Public → Signature → Bool)
      (verify_example : PricePayload Public → Signature → Bool)
      (pool : World → List (Submitted (RuntimeCall Public Signature)))
      (laws : EnvironmentLaws env verify_ocw verify_example pool) (s : RuntimeState AccountId)
      (b : ℕ) where
    open laws use {host_laws, info_laws, mutate_keeps, ocw_laws, example_laws}

    abbrev Taken : Submitted (RuntimeCall Public Signature) → Type 0
    Taken = IsTaken sys verify_ocw verify_example s

    ocw_hook-Adds :
        (w w' : World) → run_hook env ocw_demo_hook b s w ≡ some w' → Adds pool Taken w w'
    unfolding run_hook OcwWorker.offchain_worker
    ocw_hook-Adds w w' e =
        elim (Option-cases (
          OcwWorker.worker_result host (info_from_json serde) info_storage ocw_submitter
            usize_values b s.ocw w)) [
              | inl panic ↦ absurd (ground arith)
              | inr ((r, w₁), h) ↦
                  Adds-map pool
                    (Image-IsTaken sys verify_ocw verify_example s ocw_demo
                      (ocw-IsTaken sys verify_ocw verify_example s _))
                    refl (ground arith)
                    (worker_result-Adds verify_ocw host info_storage ocw_submitter ocw_demo pool
                      host_laws info_laws ocw_laws (info_from_json serde) usize_values b s.ocw w w₁
                      r h)
            ]

    example_hook-Adds :
        b ≤ s.example.block_number
        → (w w' : World) → run_hook env ocw_example_hook b s w ≡ some w'
        → Adds pool Taken w w'
    unfolding run_hook ExampleWorker.offchain_worker ExampleWorker.choose_transaction_type
    example_hook-Adds now w w' e =
        let chosen = ExampleWorker.choose_transaction_type example_config price_storage b w in
        elim (Option-cases (send host json example_submitter chosen.0 b s.example chosen.1)) [
          | inl panic ↦ absurd (ground arith)
          | inr ((r, w₁), h) ↦
              Adds-map pool
                (Image-IsTaken sys verify_ocw verify_example s ocw_example
                  (example-IsTaken sys verify_ocw verify_example s))
                (mutate_keeps last_send_key (next_last_send example_config price_storage b) w)
                (ground arith)
                (send-Adds verify_example host example_submitter ocw_example pool host_laws
                  example_laws json example_config s.example b now chosen.0 chosen.1 w₁ r h)
        ]

    hook-Adds :
        b ≤ s.example.block_number
        → (h : Hook) (w w' : World) → run_hook env h b s w ≡ some w'
        → Adds pool Taken w w'
    hook-Adds now ocw_demo_hook w w' e = ocw_hook-Adds w w' e
    hook-Adds now ocw_example_hook w w' e = example_hook-Adds now w w' e

    -- A round of the workers is for a block not after the current one of the state that they read, and
    -- the node and the libraries obey their laws. Then, in whichever order the hooks run, every
    -- transaction that the round adds to the pool is submitted signed with a call that is for signed
    -- transactions, or submitted unsigned and valid for the runtime in that state.
    pub offchain_worker-Adds :
        b ≤ s.example.block_number
        → (order : List Hook) (w w' : World) → offchain_worker env order b s w ≡ some w'
        → Adds pool (IsTaken sys verify_ocw verify_example s) w w'
    unfolding offchain_worker
    offchain_worker-Adds now [] w w' e = Adds-Keeps pool w w' (ground arith)
    offchain_worker-Adds now (h ∷ rest) w w' e = elim (Option-cases (run_hook env h b s w)) [
      | inl panic ↦ absurd (ground arith)
      | inr (w₁, ran) ↦
          Adds-trans pool (hook-Adds now h w w₁ ran)
            (offchain_worker-Adds now rest w₁ w' (rw (offchain_worker, ran) at e))
    ]
