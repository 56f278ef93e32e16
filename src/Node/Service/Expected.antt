-- ===== src/Node/Service/Expected.antt =====
-- The tasks that a node is meant to run, by their names.
use substrate_node_template.Common.{Bool, true, false, Option, none, some, List, [], ◌∷◌}
use substrate_node_template.Node.Service.Types.{Task}

-- There are endpoints, at least one.
abbrev pub has_endpoints : {A : Type 0} → Option (List A) → Bool
has_endpoints none = false
has_endpoints (some []) = false
has_endpoints (some (x ∷ xs)) = true

abbrev pub telemetry : Task
telemetry = record { name = "telemetry"; essential = false; blocking = false }

abbrev pub authoring : Task
authoring = record { name = "aura"; essential = true; blocking = true }

abbrev pub voting : Task
voting = record { name = "grandpa-voter"; essential = true; blocking = true }

abbrev pub observing : Task
observing = record { name = "grandpa-observer"; essential = false; blocking = true }
