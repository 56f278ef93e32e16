-- ===== src/Node/Command/Starts.antt =====
-- Which commands start a node, and which are refused.
use substrate_node_template.Common.{String, some, ◌∷◌, ◌≡◌, ok, err, ◌⊎◌, arith}
use substrate_node_template.Node.Service.Types.{
  Platform, Configuration, other, History, start_network,
}
use substrate_node_template.Node.Service.Plan.{NotStarted}
use substrate_node_template.Node.Service.Full.Quiet.{new_partial-refused}
use substrate_node_template.Node.Command.{
  Tools, Session, Subcommand, check_block, export_blocks, export_state, import_blocks, revert, run,
  run_async,
}

module _ (platform : Platform) (tools : Tools platform) where
  open platform use {Role, is_light, LibraryError}
  open tools use {CliError, service_error, create_runner, benchmarks_built}

  -- The network has been started, by the last call.
  abbrev pub Started : History platform → Type 0
  Started h = (before : History platform) × (h ≡ start_network ∷ before) × NotStarted before

  -- The commands whose library part needs parts of a node.
  abbrev pub NeedsNode : Subcommand → Type 0
  NeedsNode c =
      (c ≡ check_block)
      ⊎ ((c ≡ export_blocks) ⊎ ((c ≡ export_state) ⊎ ((c ≡ import_blocks) ⊎ (c ≡ revert))))

  async_refused :
      (c : Subcommand) (s : Session platform) (config : Configuration Role) (url : String)
      → create_runner (some c) ≡ ok config
      → config.keystore_remote ≡ some url
      → run_async platform tools c s
        ≡ some (err (service_error (other "Remote Keystores are not supported.")), s)
  async_refused c s config url made remote =
      ground (arith, new_partial-refused platform config url s.node remote)

  -- With a remote keystore in its configuration, each command that needs parts of a node ends with the
  -- same error; nothing has been built and the library's part has not been run.
  pub run_remote_keystore :
      (c : Subcommand) (s : Session platform) (config : Configuration Role) (url : String)
      → NeedsNode c
      → create_runner (some c) ≡ ok config
      → config.keystore_remote ≡ some url
      → run platform tools (some c) s
        ≡ some (err (service_error (other "Remote Keystores are not supported.")), s)
  unfolding run
  run_remote_keystore check_block s config url needs = async_refused check_block s config url
  run_remote_keystore export_blocks s config url needs = async_refused export_blocks s config url
  run_remote_keystore export_state s config url needs = async_refused export_state s config url
  run_remote_keystore import_blocks s config url needs = async_refused import_blocks s config url
  run_remote_keystore revert s config url needs = async_refused revert s config url
  run_remote_keystore c s config url needs = absurd (ground arith)
