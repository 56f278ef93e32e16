-- ===== src/Node/Service/Types.antt =====
-- What the services of node/src/service.rs are built from. The libraries are not part of the
-- repository: a call of them is an `Action`, and the history of a node is the list of the actions so
-- far, the latest first. Arguments that are handles of other parts are left out, those that the code
-- decides on are kept; a `Bool` says whether an optional handle is given.
use substrate_node_template.Common.{
  ℕ, String, Bool, true, false, Option, none, some, List, ◌∷◌, Result, ok, err, map_err, Run,
  from_result,
}
use substrate_node_template.Node.Rpc.{RpcExtension}

-- The parts of sc_service::Configuration that the code reads.
pub record Configuration (Role : Type 0) : Type 0 where
  pub keystore_remote : Option String
  pub telemetry_endpoints : Option (List String)
  pub offchain_worker_enabled : Bool
  pub role : Role
  pub force_authoring : Bool
  pub disable_grandpa : Bool
  pub node_name : String

-- A task that is spawned on the task manager: its name, whether by the handle for essential tasks, and
-- whether by `spawn_blocking`.
pub record Task : Type 0 where
  pub name : String
  pub essential : Bool
  pub blocking : Bool

-- sc_finality_grandpa::Config
pub record GrandpaConfig (Role : Type 0) : Type 0 where
  pub gossip_millis : ℕ
  pub justification_period : ℕ
  pub name : String
  pub observer_enabled : Bool
  pub keystore : Bool
  pub local_role : Role
  pub telemetry : Bool

-- sp_consensus::CanAuthorWithNativeVersion and sp_consensus::NeverCanAuthor
pub data CanAuthorWith : Type 0 where
  native_version never : CanAuthorWith

pub data Action (Role : Type 0) : Type 0 where
  -- TelemetryWorker::new(size), and new_telemetry(endpoints) on its handle
  telemetry_worker : ℕ → Action Role
  new_telemetry : List String → Action Role
  -- sc_service::new_full_parts and new_light_parts, with or without a telemetry handle
  full_parts light_parts : (telemetry : Bool) → Action Role
  -- sr25519_generate_new(keystore, key_type, Some(seed))
  generate_key : (key_type : List ℕ) → (seed : String) → Action Role
  spawn : Task → Action Role
  -- BasicPool::new_full(.., is_authority, ..) and BasicPool::new_light
  full_pool : (is_authority : Bool) → Action Role
  light_pool : Action Role
  -- sc_finality_grandpa::block_import, sc_consensus_aura::slot_duration and import_queue
  block_import : (telemetry : Bool) → Action Role
  slot_duration : Action Role
  import_queue : CanAuthorWith → (telemetry : Bool) → Action Role
  -- set_remote_keystore on the container
  set_remote_keystore : Action Role
  -- config.network.extra_sets.push(grandpa_peers_set_config())
  grandpa_peers_set : Action Role
  -- sc_service::build_network, build_offchain_workers and spawn_tasks
  build_network : (on_demand warp_sync : Bool) → Action Role
  build_offchain_workers : Action Role
  spawn_tasks :
      (on_demand remote_blockchain : Bool) → (rpc : Bool → List RpcExtension) → Action Role
  -- sc_consensus_aura::start_aura
  start_aura : (force_authoring telemetry : Bool) → Action Role
  run_grandpa_voter run_grandpa_observer : GrandpaConfig Role → Action Role
  start_network : Action Role

-- What the libraries give: the roles, of which the code tests two, and what a call that may fail
-- returns after the actions so far.
pub record Platform : Type 1 where
  pub Role : Type 0
  pub is_authority : Role → Bool
  -- the pattern `Role::Light`
  pub is_light : Role → Bool
  pub LibraryError : Type 0
  pub outcome : List (Action Role) → Action Role → Result LibraryError (Unit {0})

-- sc_service::error::Error: `Other`, and what `?` makes of the errors of the libraries.
pub data ServiceError (LibraryError : Type 0) : Type 0 where
  other : String → ServiceError LibraryError
  library : LibraryError → ServiceError LibraryError

module _ (platform : Platform) where
  open platform use {Role, LibraryError, outcome}

  abbrev pub History : Type 0
  History = List (Action Role)

  abbrev pub Build : Type 0 → Type 0
  Build A = Run History (ServiceError LibraryError) A

  -- A call that cannot fail.
  abbrev pub act : Action Role → Build (Unit {0})
  act a h = some (ok tt, a ∷ h)

  -- A call under `?`.
  abbrev pub attempt : Action Role → Build (Unit {0})
  attempt a h = some (map_err library (outcome h a), a ∷ h)

  -- A call under `expect`, whose error is a panic.
  abbrev pub insist : Action Role → Build (Unit {0})
  insist a h = elim (outcome h a) [ ok _ ↦ some (ok tt, a ∷ h) | err _ ↦ none ]

  -- `if c { .. }`
  abbrev pub when : Bool → Build (Unit {0}) → Build (Unit {0})
  when true m = m
  when false m = from_result (ok tt)
