-- ===== src/Node/Service/Light/Tasks.antt =====
-- What `new_light` leaves running.
use substrate_node_template.Common.{
  true, false, not, some, List, [], ◌∷◌, ◌++◌, ◌≡◌, refl, ap, ◌∙◌, sym, Result, ok, err, ◌⊎◌, inl,
  inr, All, arith,
}
use substrate_node_template.Node.Service.Types.{
  Platform, Configuration, Task, ServiceError, History, light_parts, spawn, grandpa_peers_set,
  light_pool, block_import, slot_duration, import_queue, never, build_network,
  build_offchain_workers, run_grandpa_observer, spawn_tasks, start_network,
}
use substrate_node_template.Node.Service.Plan.{
  only, Step, certain, fallible, call, after, run_step, run_plan, run_plan-Ends, run_plan-err,
  NotStarted, tasks, keys, starts, authors,
}
use substrate_node_template.Node.Service.Partial.{
  non_empty, is_some, telemetry_task, set_up_telemetry,
}
use substrate_node_template.Node.Service.Expected.{has_endpoints, telemetry, observing}
use substrate_node_template.Node.Service.Full.Calls.{telemetry_plan}
use substrate_node_template.Node.Service.Light.{
  new_light, start_observer, observer_config, observer_task,
}

module _ (platform : Platform) where
  open platform use {Role, LibraryError}

  -- All calls of `new_light` but the last, in order.
  abbrev pub light_calls : Configuration Role → List (Step Role)
  light_calls config =
      let endpoints = non_empty config.telemetry_endpoints in
      let telemetry = is_some endpoints in
      telemetry_plan platform endpoints
      ++ (fallible (light_parts telemetry)
          ∷ (only telemetry (certain (spawn telemetry_task) ∷ [])
              ++ (certain grandpa_peers_set
                  ∷ certain light_pool
                  ∷ fallible (block_import telemetry)
                  ∷ fallible slot_duration
                  ∷ fallible (import_queue never telemetry)
                  ∷ fallible (build_network true true)
                  ∷ (only config.offchain_worker_enabled (certain build_offchain_workers ∷ [])
                      ++ (only (not config.disable_grandpa) (
                            fallible
                              (run_grandpa_observer (observer_config platform config telemetry))
                            ∷ certain (spawn observer_task)
                            ∷ [])
                          ++ (fallible (spawn_tasks true true (λ _. [])) ∷ []))))))

  pub new_light-eq-run_plan :
      (config : Configuration Role) (h : History platform)
      → new_light platform config h
        ≡ run_plan platform (light_calls config ++ (certain start_network ∷ [])) h
  unfolding new_light run_plan run_step set_up_telemetry start_observer
  new_light-eq-run_plan config h = ground arith

  abbrev pub light_tasks : Configuration Role → List Task
  light_tasks config =
      only (has_endpoints config.telemetry_endpoints) (telemetry ∷ [])
      ++ only (not config.disable_grandpa) (observing ∷ [])

  calls_tasks :
      (config : Configuration Role)
      → (tasks (after platform (light_calls config) []) ≡ light_tasks config)
        × (keys (after platform (light_calls config) []) ≡ [])
  calls_tasks config = ground arith

  calls_quiet :
      (config : Configuration Role) → All (λ s. starts (call s) ≡ false) (light_calls config)
  calls_quiet config = ground arith

  calls_idle :
      (config : Configuration Role) → All (λ s. authors (call s) ≡ false) (light_calls config)
  calls_idle config = ground arith

  idle_after :
      (config : Configuration Role)
      → All (λ a. authors a ≡ false) (after platform (light_calls config) [])
  idle_after config = ground arith

  -- However a run of `new_light` ends, it has not set up authoring: it made no call to start it, and
  -- its import queue can never author. Without an error it leaves, besides the tasks of the libraries,
  -- the telemetry task where there are telemetry endpoints and the finality observer unless finality is
  -- disabled, neither of them essential, and no keys; and the network is started by the last call
  -- alone. With an error the network has not been started.
  pub new_light_ends :
      (config : Configuration Role) (r : Result (ServiceError LibraryError) (Unit {0}))
      (h : History platform)
      → new_light platform config [] ≡ some (r, h)
      → All (λ a. authors a ≡ false) h
        × (((r ≡ ok tt)
              × (tasks h ≡ light_tasks config)
              × (keys h ≡ [])
              × ((before : History platform) × (h ≡ start_network ∷ before) × NotStarted before))
            ⊎ ((e : ServiceError LibraryError) × (r ≡ err e) × NotStarted h))
  new_light_ends config r h e =
      let run = sym (new_light-eq-run_plan config []) ∙ e in
      elim (run_plan-Ends platform (light_calls config) r h (calls_quiet config) run) [
        | inl (fine, done, quiet) ↦
            let (same_tasks, same_keys) = calls_tasks config in
            (
              rw done (refl, idle_after config),
              inl (
                fine,
                ap tasks done ∙ same_tasks,
                ap keys done ∙ same_keys,
                (after platform (light_calls config) [], done, quiet),
              ),
            )
        | inr (x, failed, quiet) ↦ (
          run_plan-err platform (λ a. authors a ≡ false) (light_calls config) start_network [] h x
              (calls_idle config) tt (run ∙ ap (λ q. some (q, h)) failed),
          inr (x, failed, quiet),
        )
      ]
