-- ===== src/Node/Service/Full/Calls.antt =====
-- `new_full` as a plan of calls.
use mathlib.Core.List.{append_assoc}
use substrate_node_template.Common.{
  String, Bool, true, false, not, Option, none, some, List, [], ◌∷◌, ◌++◌, ◌≡◌, ap, ◌∙◌, sym, ok,
  from_result, arith, and_then,
}
use substrate_node_template.Ocw.Types.{key_type as ocw_key_type}
use substrate_node_template.ExampleOcw.Types.{key_type as example_key_type}
use substrate_node_template.Node.Rpc.{create_full}
use substrate_node_template.Node.Service.Types.{
  Platform, Configuration, History, grandpa_peers_set, build_network, build_offchain_workers,
  spawn_tasks, slot_duration, start_aura, run_grandpa_voter, spawn, start_network, telemetry_worker,
  new_telemetry, full_parts, generate_key, full_pool, block_import, import_queue, native_version,
}
use substrate_node_template.Node.Service.Plan.{
  only, run_plan-append, and_then_assoc, and_then_congr, Step, certain, fallible, vital, run_step,
  run_plan,
}
use substrate_node_template.Node.Service.Partial.{
  new_partial, build_components, set_up_telemetry, generate_keys, non_empty, is_some, unless_remote,
  telemetry_task,
}
use substrate_node_template.Node.Service.Full.{
  new_full, start_full, start_authoring, start_voter, voter_config, aura_task, voter_task,
}

module _ (platform : Platform) where
  open platform use {Role, is_authority, LibraryError, outcome}

  -- The calls after `new_partial`, but for the last.
  abbrev pub start_calls : Configuration Role → Bool → List (Step Role)
  start_calls config telemetry =
      certain grandpa_peers_set
      ∷ (fallible (build_network false true)
          ∷ (only config.offchain_worker_enabled (certain build_offchain_workers ∷ [])
              ++ (fallible (spawn_tasks false false create_full)
                  ∷ (only (is_authority config.role) (
                        fallible slot_duration
                        ∷ fallible (start_aura config.force_authoring telemetry)
                        ∷ certain (spawn aura_task)
                        ∷ [])
                      ++ only (not config.disable_grandpa) (
                          fallible (run_grandpa_voter (voter_config platform config telemetry))
                          ∷ certain (spawn voter_task)
                          ∷ [])))))

  start_full-eq-run_plan :
      (config : Configuration Role) (telemetry : Bool) (h : History platform)
      → config.keystore_remote ≡ none
      → start_full platform config telemetry h
        ≡ run_plan platform (start_calls config telemetry ++ (certain start_network ∷ [])) h
  unfolding start_full run_plan run_step start_authoring start_voter
  start_full-eq-run_plan config telemetry h local = ground (arith)

  abbrev pub telemetry_plan : Option (List String) → List (Step Role)
  telemetry_plan none = []
  telemetry_plan (some endpoints) =
      fallible (telemetry_worker 16) ∷ certain (new_telemetry endpoints) ∷ []

  abbrev pub components_plan : Configuration Role → List (Step Role)
  components_plan config =
      let endpoints = non_empty config.telemetry_endpoints in
      let telemetry = is_some endpoints in
      telemetry_plan endpoints
      ++ (fallible (full_parts telemetry)
          ∷ (only config.offchain_worker_enabled (
                vital (generate_key ocw_key_type "//Alice")
                ∷ vital (generate_key example_key_type "//Alice")
                ∷ [])
              ++ (only telemetry (certain (spawn telemetry_task) ∷ [])
                  ++ (certain (full_pool (is_authority config.role))
                      ∷ fallible (block_import telemetry)
                      ∷ fallible slot_duration
                      ∷ fallible (import_queue native_version telemetry)
                      ∷ []))))

  pub build_components-eq-run_plan :
      (config : Configuration Role) (h : History platform)
      → build_components platform config h
        ≡ and_then
            (run_plan platform (components_plan config) h)
            (λ _. from_result (ok (is_some (non_empty config.telemetry_endpoints))))
  unfolding build_components run_plan run_step set_up_telemetry generate_keys
  build_components-eq-run_plan config h = ground (arith)

  -- All calls of `new_full` but the last, in order.
  abbrev pub full_calls : Configuration Role → List (Step Role)
  full_calls config =
      components_plan config ++ start_calls config (is_some (non_empty config.telemetry_endpoints))

  -- Without a remote keystore, a run of `new_full` is a run of its plan: the calls that the
  -- configuration asks for in their order, up to the first one that fails, and the start of the
  -- network last.
  pub new_full-eq-run_plan :
      (config : Configuration Role) (h : History platform)
      → config.keystore_remote ≡ none
      → new_full platform config h
        ≡ run_plan platform (full_calls config ++ (certain start_network ∷ [])) h
  unfolding new_full new_partial
  new_full-eq-run_plan config h local =
      ap
        (λ k.
          and_then (unless_remote platform k (build_components platform config) h)
            (start_full platform config))
        local
      ∙ ap (λ r. and_then r (start_full platform config)) (build_components-eq-run_plan config h)
      ∙ and_then_assoc platform (run_plan platform (components_plan config) h) _
          (start_full platform config)
      ∙ and_then_congr platform (run_plan platform (components_plan config) h) _ _
          (λ _ h'. start_full-eq-run_plan config _ h' local)
      ∙ sym (run_plan-append platform (components_plan config) _ h)
      ∙ ap (λ plan. run_plan platform plan h) (sym (append_assoc (components_plan config) _ _))
