-- ===== src/Node/Service/Full.antt =====
-- `new_full` of node/src/service.rs.
pub mod Calls
pub mod Tasks
pub mod Quiet
use Prim.Native.String.{◌++◌}
use substrate_node_template.Common.{
  String, Bool, true, false, not, Option, none, some, Result, ok, err, ◌>>=◌, ◌>>◌, from_result,
}
use substrate_node_template.Node.Rpc.{create_full}
use substrate_node_template.Node.Service.Types.{
  Platform, Configuration, Action, Task, GrandpaConfig, ServiceError, other, Build, act, attempt,
  when, set_remote_keystore, grandpa_peers_set, build_network, build_offchain_workers, spawn_tasks,
  slot_duration, start_aura, run_grandpa_voter, spawn, start_network,
}
use substrate_node_template.Node.Service.Partial.{new_partial}

abbrev pub remote_keystore : String → Result String (Unit {0})
remote_keystore _url = err "Remote Keystore not supported."

abbrev pub aura_task : Task
aura_task = record { name = "aura"; essential = true; blocking = true }

abbrev pub voter_task : Task
voter_task = record { name = "grandpa-voter"; essential = true; blocking = true }

module _ (platform : Platform) where
  open platform use {Role, is_authority}

  abbrev pub hook : String → Result String (Unit {0}) → Build platform (Unit {0})
  hook url (ok _) = act platform set_remote_keystore
  hook url (err e) =
      from_result (err (other ("Error hooking up remote keystore for " ++ (url ++ (": " ++ e)))))

  abbrev pub hook_remote_keystore : Option String → Build platform (Unit {0})
  hook_remote_keystore none = from_result (ok tt)
  hook_remote_keystore (some url) = hook url (remote_keystore url)

  unfoldable pub start_authoring : Bool → Bool → Build platform (Unit {0})
  start_authoring force_authoring telemetry = do
    attempt platform slot_duration
    attempt platform (start_aura force_authoring telemetry)
    act platform (spawn aura_task)

  abbrev pub voter_config : Configuration Role → Bool → GrandpaConfig Role
  voter_config config telemetry = record {
    gossip_millis = 333;
    justification_period = 512;
    name = config.node_name;
    observer_enabled = false;
    keystore = is_authority config.role;
    local_role = config.role;
    telemetry = telemetry;
  }

  unfoldable pub start_voter : Configuration Role → Bool → Build platform (Unit {0})
  start_voter config telemetry = do
    attempt platform (run_grandpa_voter (voter_config config telemetry))
    act platform (spawn voter_task)

  -- The part after `new_partial`.
  unfoldable pub start_full : Configuration Role → Bool → Build platform (Unit {0})
  start_full config telemetry = do
    hook_remote_keystore config.keystore_remote
    act platform grandpa_peers_set
    attempt platform (build_network false true)
    when platform config.offchain_worker_enabled (act platform build_offchain_workers)
    attempt platform (spawn_tasks false false create_full)
    when platform (is_authority config.role) (start_authoring config.force_authoring telemetry)
    when platform (not config.disable_grandpa) (start_voter config telemetry)
    act platform start_network

  unfoldable pub new_full : Configuration Role → Build platform (Unit {0})
  new_full config = do telemetry ← new_partial platform config; start_full config telemetry
