-- ===== src/Node/Command/Spec.antt =====
-- `load_spec` of node/src/command.rs: which chain an id on the command line names; and
-- `native_runtime_version`.
use substrate_node_template.Common.{ℕ, String, Option, List, [], ◌∷◌, Result, if◌then◌else◌, ◌||◌}
use substrate_node_template.Runtime.{RuntimeVersion, version}
use substrate_node_template.ExampleOcw.Parse.{same_chars}
use substrate_node_template.Node.ChainSpec.{
  Keys, ChainSpec, development_config, local_testnet_config,
}

-- The ids "dev" and "local", as bytes.
abbrev pub dev_id : List ℕ
dev_id = b'd' ∷ b'e' ∷ b'v' ∷ []

abbrev pub local_id : List ℕ
local_id = b'l' ∷ b'o' ∷ b'c' ∷ b'a' ∷ b'l' ∷ []

-- The version of the native runtime is the runtime's, whatever the chain.
abbrev pub native_runtime_version : {Spec : Type 0} → Spec → RuntimeVersion
native_runtime_version spec = version

-- `from_json_file` is the library's `ChainSpec::from_json_file`, `wasm` the binary that the runtime's
-- build leaves, if it does.
module _ (keys : Keys) (from_json_file : List ℕ → Result String (ChainSpec keys))
    (wasm : Option (List ℕ)) where
  unfoldable pub load_spec : List ℕ → Result String (ChainSpec keys)
  unfolding same_chars
  load_spec id =
      if same_chars id dev_id
      then development_config keys wasm
      else if same_chars id [] || same_chars id local_id
      then local_testnet_config keys wasm
      else from_json_file id
