-- ===== src/ExampleOcw/Types.antt =====
-- The configuration, storage, calls and events of pallet-example-offchain-worker.
use substrate_node_template.Common.{ℕ, List, [], ◌∷◌}

-- KEY_TYPE
abbrev pub key_type : List ℕ
key_type = b'b' ∷ b't' ∷ b'c' ∷ b'!' ∷ []

-- `Config`: the three constants, and how many values `T::BlockNumber` has.
pub record Config : Type 0 where
  pub grace_period : ℕ
  pub unsigned_interval : ℕ
  pub unsigned_priority : ℕ
  pub block_values : ℕ

pub record PricePayload (Public : Type 0) : Type 0 where
  pub block_number : ℕ
  pub price : ℕ
  pub public : Public

pub data Call (Public Signature : Type 0) : Type 0 where
  submit_price : ℕ → Call Public Signature
  submit_price_unsigned : ℕ → ℕ → Call Public Signature
  submit_price_unsigned_with_signed_payload :
      PricePayload Public → Signature → Call Public Signature

pub data Event (AccountId : Type 0) : Type 0 where
  new_price : ℕ → AccountId → Event AccountId

-- The storage items `Prices` and `NextUnsignedAt`, the current block number that the pallet reads
-- from frame_system, and the events that it has deposited, in order.
pub record State (AccountId : Type 0) : Type 0 where
  pub prices : List ℕ
  pub next_unsigned_at : ℕ
  pub block_number : ℕ
  pub events : List (Event AccountId)

pub data TransactionType : Type 0 where
  signed unsigned_for_any unsigned_for_all raw none : TransactionType
