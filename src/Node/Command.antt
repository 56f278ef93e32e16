-- ===== src/Node/Command.antt =====
-- node/src/command.rs and node/src/cli.rs: the commands of the node.
pub mod About
pub mod Starts
pub mod Spec
use substrate_node_template.Common.{
  String, Bool, true, false, Option, none, some, List, [], ◌∷◌, Result, ok, err, map_err, Run,
  ◌>>=◌, ◌>>◌, from_result,
}
use substrate_node_template.Node.Service.Types.{
  Platform, Configuration, ServiceError, History, Build,
}
use substrate_node_template.Node.Service.Partial.{new_partial}
use substrate_node_template.Node.Service.Full.{new_full}
use substrate_node_template.Node.Service.Light.{new_light}

-- The commands without their arguments.
pub data Subcommand : Type 0 where
  key build_spec check_block export_blocks export_state import_blocks : Subcommand
  purge_chain revert benchmark : Subcommand

-- What sc_cli gives: the configuration that the runner of a command (of the node itself for `none`)
-- hands to its closure, and how the library's part of a command ends. `benchmarks_built` is the
-- feature runtime-benchmarks.
pub record Tools (platform : Platform) : Type 1 where
  pub CliError : Type 0
  -- Error::Service, and the error that `.into()` makes of a text
  pub service_error : ServiceError (Platform.LibraryError platform) → CliError
  pub text_error : String → CliError
  pub create_runner : Option Subcommand → Result CliError (Configuration (Platform.Role platform))
  pub run_command : Subcommand → Result CliError (Unit {0})
  pub benchmarks_built : Bool

-- The library commands that have been run, the latest first, and the history of the node.
pub record Session (platform : Platform) : Type 0 where
  pub commands : List Subcommand
  pub node : History platform

module _ (platform : Platform) where
  abbrev pub new_session : Session platform
  new_session = record { commands = []; node = [] }

  -- `Role::Light` gets the light service, every other role the full one.
  abbrev pub service_of : Bool → Configuration (Platform.Role platform) → Build platform (Unit {0})
  service_of true config = new_light platform config
  service_of false config = new_full platform config

module _ (platform : Platform) (tools : Tools platform) where
  open platform use {Role, is_light, LibraryError}
  open tools use {CliError, service_error, text_error, create_runner, run_command, benchmarks_built}

  abbrev pub Command : Type 0 → Type 0
  Command A = Run (Session platform) CliError A

  abbrev in_session :
      {A : Type 0}
      → List Subcommand
      → Option (Result (ServiceError LibraryError) A × History platform)
      → Option (Result CliError A × Session platform)
  in_session commands none = none
  in_session commands (some (r, h)) =
      some (map_err service_error r, record { commands = commands; node = h })

  -- A part of the node is built, its errors as errors of the command.
  abbrev pub on_node : {A : Type 0} → Build platform A → Command A
  on_node m s = in_session s.commands (m s.node)

  -- `cmd.run(..)` of the library.
  abbrev pub execute : Subcommand → Command (Unit {0})
  execute c s = some (run_command c, record s { commands = c ∷ s.commands })

  -- `runner.sync_run(|config| cmd.run(..))`
  abbrev pub run_sync : Subcommand → Command (Unit {0})
  run_sync c = do config ← from_result (create_runner (some c)); execute c

  -- `runner.async_run(..)` of the commands that need parts of a node
  abbrev pub run_async : Subcommand → Command (Unit {0})
  run_async c = do
    config ← from_result (create_runner (some c))
    telemetry ← on_node (new_partial platform config)
    execute c

  abbrev pub run_benchmark : Bool → Command (Unit {0})
  run_benchmark true = run_sync benchmark
  run_benchmark false = from_result (
      err (
        text_error
          "Benchmarking wasn't enabled when building the node. You can enable it with `--features runtime-benchmarks`."))

  -- Without a subcommand the node is built; that it then runs until it exits is the library's part.
  unfoldable pub run : Option Subcommand → Command (Unit {0})
  run (some key) = execute key
  run (some build_spec) = run_sync build_spec
  run (some check_block) = run_async check_block
  run (some export_blocks) = run_async export_blocks
  run (some export_state) = run_async export_state
  run (some import_blocks) = run_async import_blocks
  run (some purge_chain) = run_sync purge_chain
  run (some revert) = run_async revert
  run (some benchmark) = run_benchmark benchmarks_built
  run none = do
    config ← from_result (create_runner none)
    on_node (service_of platform (is_light config.role) config)
