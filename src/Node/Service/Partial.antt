-- ===== src/Node/Service/Partial.antt =====
-- `new_partial` of node/src/service.rs, and the telemetry that the light service sets up in the same way.
use substrate_node_template.Common.{
  String, Bool, true, false, Option, none, some, List, [], ◌∷◌, ok, err, ◌>>=◌, ◌>>◌, from_result,
}
use substrate_node_template.Ocw.Types.{key_type as ocw_key_type}
use substrate_node_template.ExampleOcw.Types.{key_type as example_key_type}
use substrate_node_template.Node.Service.Types.{
  Platform, Configuration, Task, other, Build, act, attempt, insist, when, telemetry_worker,
  new_telemetry, full_parts, generate_key, spawn, full_pool, block_import, slot_duration,
  import_queue, native_version,
}

-- `.clone().filter(|x| !x.is_empty())`
abbrev pub non_empty : {A : Type 0} → Option (List A) → Option (List A)
non_empty none = none
non_empty (some []) = none
non_empty (some (x ∷ xs)) = some (x ∷ xs)

abbrev pub is_some : {A : Type 0} → Option A → Bool
is_some none = false
is_some (some _) = true

abbrev pub telemetry_task : Task
telemetry_task = record { name = "telemetry"; essential = false; blocking = false }

module _ (platform : Platform) where
  open platform use {Role, is_authority}

  -- The result says whether there is a telemetry.
  abbrev pub connect_telemetry : Option (List String) → Build platform Bool
  connect_telemetry none = from_result (ok false)
  connect_telemetry (some endpoints) = do
    attempt platform (telemetry_worker 16)
    act platform (new_telemetry endpoints)
    from_result (ok true)

  unfoldable pub set_up_telemetry : Configuration Role → Build platform Bool
  set_up_telemetry config = connect_telemetry (non_empty config.telemetry_endpoints)

  unfoldable pub generate_keys : Build platform (Unit {0})
  generate_keys = do
    insist platform (generate_key ocw_key_type "//Alice")
    insist platform (generate_key example_key_type "//Alice")

  -- The part after the check of the keystore. Of the components the result keeps whether there is a
  -- telemetry.
  unfoldable pub build_components : Configuration Role → Build platform Bool
  build_components config = do
    telemetry ← set_up_telemetry config
    attempt platform (full_parts telemetry)
    when platform config.offchain_worker_enabled generate_keys
    when platform telemetry (act platform (spawn telemetry_task))
    act platform (full_pool (is_authority config.role))
    attempt platform (block_import telemetry)
    attempt platform slot_duration
    attempt platform (import_queue native_version telemetry)
    from_result (ok telemetry)

  abbrev pub unless_remote : Option String → Build platform Bool → Build platform Bool
  unless_remote none m = m
  unless_remote (some _) m = from_result (err (other "Remote Keystores are not supported."))

  unfoldable pub new_partial : Configuration Role → Build platform Bool
  new_partial config = unless_remote config.keystore_remote (build_components config)
