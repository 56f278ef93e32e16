-- ===== src/Node/Service/Light.antt =====
-- `new_light` of node/src/service.rs.
pub mod Tasks
use substrate_node_template.Common.{
  String, [], Bool, true, false, not, ok, ◌>>=◌, ◌>>◌, from_result, Option, none, some,
}
use substrate_node_template.Node.Service.Types.{
  Platform, Configuration, Action, Task, GrandpaConfig, Build, act, attempt, when, light_parts,
  spawn, grandpa_peers_set, light_pool, block_import, slot_duration, import_queue, never,
  build_network, build_offchain_workers, run_grandpa_observer, spawn_tasks, start_network,
}
use substrate_node_template.Node.Service.Partial.{set_up_telemetry, telemetry_task}

abbrev pub observer_task : Task
observer_task = record { name = "grandpa-observer"; essential = false; blocking = true }

module _ (platform : Platform) where
  open platform use {Role}

  abbrev pub observer_config : Configuration Role → Bool → GrandpaConfig Role
  observer_config config telemetry = record {
    gossip_millis = 333;
    justification_period = 512;
    name = config.node_name;
    observer_enabled = false;
    keystore = false;
    local_role = config.role;
    telemetry = telemetry;
  }

  unfoldable pub start_observer : Configuration Role → Bool → Build platform (Unit {0})
  start_observer config telemetry = do
    attempt platform (run_grandpa_observer (observer_config config telemetry))
    act platform (spawn observer_task)

  unfoldable pub new_light : Configuration Role → Build platform (Unit {0})
  new_light config = do
    telemetry ← set_up_telemetry platform config
    attempt platform (light_parts telemetry)
    when platform telemetry (act platform (spawn telemetry_task))
    act platform grandpa_peers_set
    act platform light_pool
    attempt platform (block_import telemetry)
    attempt platform slot_duration
    attempt platform (import_queue never telemetry)
    attempt platform (build_network true true)
    when platform config.offchain_worker_enabled (act platform build_offchain_workers)
    when platform (not config.disable_grandpa) (start_observer config telemetry)
    attempt platform (spawn_tasks true true (λ _. []))
    act platform start_network
