-- ===== src/Template.antt =====
-- pallets/template/src/lib.rs: one stored number.
pub mod Increments
pub mod Benchmarking
pub mod Bounds
pub mod Calls
use substrate_node_template.Common.{ℕ, Option, none, some, List, [], ◌∷◌, ◌++◌, checked_add32}
use substrate_node_template.Frame.{System, Dispatch, done, failed, check_origin, module_error}

pub data Event (AccountId : Type 0) : Type 0 where
  something_stored : ℕ → AccountId → Event AccountId

pub data Error : Type 0 where
  none_value storage_overflow : Error

-- The storage item `Something`, and the events that the pallet has deposited, in order.
pub record State (AccountId : Type 0) : Type 0 where
  pub something : Option ℕ
  pub events : List (Event AccountId)

module _ (sys : System) where
  open sys use {Origin, AccountId, ensure_signed}

  abbrev pub Outcome : Type 0
  Outcome = Dispatch Error (State AccountId)

  unfoldable pub do_something : Origin → ℕ → State AccountId → Outcome
  do_something origin something s = check_origin (ensure_signed origin) s λ who. done (record {
    something = some something;
    events = s.events ++ (something_stored something who ∷ []);
  })

  -- `old.checked_add(1).ok_or(Error::StorageOverflow)?`, and the write
  abbrev pub store_sum : Option ℕ → State AccountId → Outcome
  store_sum none s = failed (module_error storage_overflow) s
  store_sum (some new) s = done (record s { something = some new })

  abbrev pub increment : Option ℕ → State AccountId → Outcome
  increment none s = failed (module_error none_value) s
  increment (some old) s = store_sum (checked_add32 old 1) s

  unfoldable pub cause_error : Origin → State AccountId → Outcome
  cause_error origin s = check_origin (ensure_signed origin) s λ _who. increment s.something s
