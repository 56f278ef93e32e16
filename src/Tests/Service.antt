-- ===== src/Tests/Service.antt =====
-- Starts of a node at concrete configurations.
use substrate_node_template.Common.{
  ◌≡◌, refl, String, Bool, true, false, not, none, some, [], ◌∷◌, Result, ok, err, ◌⊎◌, Option, All,
}
use substrate_node_template.Node.Service.Types.{
  Platform, Configuration, History, ServiceError, start_network,
}
use substrate_node_template.Node.Service.Partial.{
  new_partial, build_components, set_up_telemetry, generate_keys,
}
use substrate_node_template.Node.Service.Plan.{after, authors, NotStarted, tasks, keys}
use substrate_node_template.Node.Service.Full.{new_full, start_full, start_authoring, start_voter}
use substrate_node_template.Node.Service.Full.Calls.{full_calls}
use substrate_node_template.Node.Service.Full.Tasks.{expected_tasks, expected_keys, new_full_ends}
use substrate_node_template.Node.Service.Light.{new_light, start_observer}
use substrate_node_template.Node.Service.Light.Tasks.{light_calls, light_tasks, new_light_ends}
use substrate_node_template.Node.Command.{Tools, Session}

-- The roles are those of an authority and of a light node; every call succeeds.
abbrev platform : Platform
platform = record {
  Role = Bool;
  is_authority = λ r. r;
  is_light = λ r. not r;
  LibraryError = String;
  outcome = λ h a. ok tt;
}

abbrev configuration : Option String → Bool → Configuration Bool
configuration remote authority = record {
  keystore_remote = remote;
  telemetry_endpoints = some ("telemetry" ∷ []);
  offchain_worker_enabled = true;
  role = authority;
  force_authoring = false;
  disable_grandpa = false;
  node_name = "node";
}

abbrev tools : Option String → Tools platform
tools remote = record {
  CliError = String;
  service_error = λ e. "service";
  text_error = λ s. s;
  create_runner = λ c. ok (configuration remote true);
  run_command = λ c. ok tt;
  benchmarks_built = false;
}

abbrev authority_node : Configuration Bool
authority_node = configuration none true

abbrev light_node : Configuration Bool
light_node = configuration none false

abbrev full_history : History platform
full_history = start_network ∷ after platform (full_calls platform authority_node) []

abbrev light_history : History platform
light_history = start_network ∷ after platform (light_calls platform light_node) []

full_run : new_full platform authority_node [] ≡ some (ok tt, full_history)
unfolding new_full new_partial build_components set_up_telemetry generate_keys start_full
    start_authoring start_voter
full_run = refl

light_run : new_light platform light_node [] ≡ some (ok tt, light_history)
unfolding new_light set_up_telemetry start_observer
light_run = refl

new_full_ends_example :
    ((◌≡◌ {A = Result (ServiceError String) (Unit {0})} (ok tt) (ok tt))
      × (tasks full_history ≡ expected_tasks platform authority_node)
      × (keys full_history ≡ expected_keys platform authority_node)
      × ((before : History platform) × (full_history ≡ start_network ∷ before) × NotStarted before))
    ⊎ ((e : ServiceError String) × (◌≡◌ {A = Result (ServiceError String) (Unit {0})}
          (ok tt)
          (err e))
        × NotStarted full_history)
new_full_ends_example = new_full_ends platform authority_node (ok tt) full_history full_run

new_light_ends_example :
    All (λ a. authors a ≡ false) light_history
    × (((◌≡◌ {A = Result (ServiceError String) (Unit {0})} (ok tt) (ok tt))
          × (tasks light_history ≡ light_tasks platform light_node)
          × (keys light_history ≡ [])
          × ((before : History platform) × (light_history ≡ start_network ∷ before)
              × NotStarted before))
        ⊎ ((e : ServiceError String) × (◌≡◌ {A = Result (ServiceError String) (Unit {0})}
              (ok tt)
              (err e))
            × NotStarted light_history))
new_light_ends_example = new_light_ends platform light_node (ok tt) light_history light_run

abbrev after_start : Session platform
after_start = record { commands = []; node = full_history }
