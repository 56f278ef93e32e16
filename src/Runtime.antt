-- ===== src/Runtime.antt =====
-- runtime/src/lib.rs: the constants that configure the pallets; in the child modules the extrinsic of
-- an off-chain worker, the composition of the pallets, and a chain of the runtime.
pub mod Transaction
pub mod Whole
pub mod Pallets
pub mod Chain
pub mod Offchain
pub mod Benchmarks
use substrate_node_template.Common.{ℕ, ◌*◌, ◌/◌, ◌^◌, u32_values, String, Option, none}
use substrate_node_template.ExampleOcw.Types.{Config}

-- MILLISECS_PER_BLOCK
abbrev pub millisecs_per_block : ℕ
millisecs_per_block = 6000

-- SLOT_DURATION, and MinimumPeriod of pallet_timestamp
abbrev pub slot_duration : ℕ
slot_duration = millisecs_per_block

abbrev pub minimum_period : ℕ
minimum_period = slot_duration / 2

-- MINUTES, HOURS and DAYS, counted in blocks
abbrev pub minutes : ℕ
minutes = 60_000 / millisecs_per_block

abbrev pub hours : ℕ
hours = minutes * 60

abbrev pub days : ℕ
days = hours * 24

-- ExistentialDeposit of pallet_balances, and the number of values of a `Balance`
abbrev pub existential_deposit : ℕ
existential_deposit = 500

abbrev pub balance_values : ℕ
balance_values = 2 ^ 128

-- GracePeriod, UnsignedInterval and UnsignedPriority of pallet-example-offchain-worker, over block
-- numbers of type u32.
abbrev pub example_config : Config
example_config = record {
  grace_period = 3;
  unsigned_interval = 3;
  unsigned_priority = 3;
  block_values = u32_values;
}

-- SS58Prefix, MaxAuthorities (of pallet_aura and pallet_grandpa), MaxLocks and TransactionByteFee
abbrev pub ss58_prefix : ℕ
ss58_prefix = 42

abbrev pub max_authorities : ℕ
max_authorities = 32

abbrev pub max_locks : ℕ
max_locks = 50

abbrev pub transaction_byte_fee : ℕ
transaction_byte_fee = 1

-- NORMAL_DISPATCH_RATIO in percent, the length of a block in bytes, and the weight of a block, where
-- `weight_per_second` is the library's WEIGHT_PER_SECOND.
abbrev pub normal_dispatch_ratio : ℕ
normal_dispatch_ratio = 75

abbrev pub block_length : ℕ
block_length = 5 * 1024 * 1024

abbrev pub block_weight : ℕ → ℕ
block_weight weight_per_second = 2 * weight_per_second

-- RuntimeVersion, without the versions of the APIs, which a macro lists.
pub record RuntimeVersion : Type 0 where
  pub spec_name : String
  pub impl_name : String
  pub authoring_version : ℕ
  pub spec_version : ℕ
  pub impl_version : ℕ
  pub transaction_version : ℕ

-- VERSION, which `Core::version` returns too
abbrev pub version : RuntimeVersion
version = record {
  spec_name = "node-template";
  impl_name = "node-template";
  authoring_version = 1;
  spec_version = 100;
  impl_version = 1;
  transaction_version = 1;
}

-- `GrandpaApi`: no equivocation is reported, and nobody's ownership of a key is proved.
abbrev pub submit_report_equivocation_unsigned_extrinsic :
    {EquivocationProof OpaqueKeyOwnershipProof : Type 0}
    → EquivocationProof
    → OpaqueKeyOwnershipProof
    → Option (Unit {0})
submit_report_equivocation_unsigned_extrinsic equivocation_proof key_owner_proof = none

abbrev pub generate_key_ownership_proof :
    {SetId GrandpaId OpaqueKeyOwnershipProof : Type 0}
    → SetId
    → GrandpaId
    → Option OpaqueKeyOwnershipProof
generate_key_ownership_proof set_id authority_id = none
