-- ===== src/Node/Service/Full/Tasks.antt =====
-- What `new_full` leaves running.
use substrate_node_template.Common.{
  ℕ, String, false, not, some, List, [], ◌∷◌, ◌++◌, ◌≡◌, ap, ◌∙◌, sym, Result, ok, err, ◌⊎◌, inl,
  inr, All, arith, Option-cases,
}
use substrate_node_template.Node.Service.Types.{
  Platform, Configuration, Task, ServiceError, other, History, start_network,
}
use substrate_node_template.Node.Service.Plan.{
  only, call, after, run_plan-Ends, NotStarted, tasks, keys, starts,
}
use substrate_node_template.Node.Service.Partial.{new_partial}
use substrate_node_template.Node.Service.Full.{new_full}
use substrate_node_template.Node.Service.Expected.{has_endpoints, telemetry, authoring, voting}
use substrate_node_template.Node.Service.Full.Calls.{full_calls, new_full-eq-run_plan}

module _ (platform : Platform) where
  open platform use {Role, is_authority, LibraryError}

  -- The tasks and the keys that a configuration asks for.
  abbrev pub expected_tasks : Configuration Role → List Task
  expected_tasks config =
      only (has_endpoints config.telemetry_endpoints) (telemetry ∷ [])
      ++ (only (is_authority config.role) (authoring ∷ [])
          ++ only (not config.disable_grandpa) (voting ∷ []))

  abbrev pub expected_keys : Configuration Role → List (List ℕ × String)
  expected_keys config = only config.offchain_worker_enabled (
      (b'd' ∷ b'e' ∷ b'm' ∷ b'o' ∷ [], "//Alice")
      ∷ (b'b' ∷ b't' ∷ b'c' ∷ b'!' ∷ [], "//Alice")
      ∷ [])

  calls_tasks :
      (config : Configuration Role)
      → tasks (after platform (full_calls platform config) []) ≡ expected_tasks config
  calls_tasks config = ground arith

  calls_keys :
      (config : Configuration Role)
      → keys (after platform (full_calls platform config) []) ≡ expected_keys config
  calls_keys config = ground arith

  calls_quiet :
      (config : Configuration Role)
      → All (λ s. starts (call s) ≡ false) (full_calls platform config)
  calls_quiet config = ground arith

  pub new_full-refused :
      (config : Configuration Role) (url : String) (h : History platform)
      → config.keystore_remote ≡ some url
      → new_full platform config h ≡ some (err (other "Remote Keystores are not supported."), h)
  unfolding new_full new_partial
  new_full-refused config url h remote = ground arith

  -- However a run of `new_full` ends. Without an error it leaves, besides the tasks of the libraries,
  -- the telemetry task where there are telemetry endpoints, the essential authoring task of an
  -- authority and the essential voter task unless finality is disabled, and the keys of both pallets
  -- where off-chain workers are enabled; and the network is started by the last call alone. With an
  -- error the network has not been started.
  pub new_full_ends :
      (config : Configuration Role) (r : Result (ServiceError LibraryError) (Unit {0}))
      (h : History platform)
      → new_full platform config [] ≡ some (r, h)
      → ((r ≡ ok tt)
          × (tasks h ≡ expected_tasks config)
          × (keys h ≡ expected_keys config)
          × ((before : History platform) × (h ≡ start_network ∷ before) × NotStarted before))
        ⊎ ((e : ServiceError LibraryError) × (r ≡ err e) × NotStarted h)
  new_full_ends config r h e = elim (Option-cases config.keystore_remote) [
    | inl local ↦
        elim (run_plan-Ends platform (full_calls platform config) r h (calls_quiet config)
          (sym (new_full-eq-run_plan platform config [] local) ∙ e)) [
            | inl (fine, done, quiet) ↦ inl (
              fine,
              ap tasks done ∙ calls_tasks config,
              ap keys done ∙ calls_keys config,
              (after platform (full_calls platform config) [], done, quiet),
            )
            | inr failed ↦ inr failed
          ]
    | inr (url, remote) ↦
        let same : h ≡ [] = ground (arith, new_full-refused config url [] remote) in
        inr (
          other "Remote Keystores are not supported.",
          ground (arith, new_full-refused config url [] remote),
          rw same tt,
        )
  ]
