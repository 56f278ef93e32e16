-- ===== src/Ocw/Types.antt =====
-- The constants, storage, calls, events and errors of pallet-ocw.
use substrate_node_template.Common.{ℕ, ◌+◌, String, Option, List, [], ◌∷◌}

-- KEY_TYPE
abbrev pub key_type : List ℕ
key_type = b'd' ∷ b'e' ∷ b'm' ∷ b'o' ∷ []

abbrev pub num_vec_len : ℕ
num_vec_len = 10

abbrev pub unsigned_txs_priority : ℕ
unsigned_txs_priority = 100

abbrev pub http_remote_request : String
http_remote_request = "https://hacker-news.firebaseio.com/v0/item/9129911.json"

abbrev pub fetch_timeout_period : ℕ
fetch_timeout_period = 3000

abbrev pub lock_timeout_expiration : ℕ
lock_timeout_expiration = fetch_timeout_period + 1000

abbrev pub lock_block_expiration : ℕ
lock_block_expiration = 3

pub record Payload (Public : Type 0) : Type 0 where
  pub number : ℕ
  pub public : Public

-- Texts are kept as their bytes.
pub record HackerNewsInfo : Type 0 where
  pub by : List ℕ
  pub title : List ℕ
  pub url : List ℕ
  pub descendants : ℕ

pub data Call (Public Signature : Type 0) : Type 0 where
  submit_number_signed : ℕ → Call Public Signature
  submit_number_unsigned : ℕ → Call Public Signature
  submit_number_unsigned_with_signed_payload : Payload Public → Signature → Call Public Signature

pub data Event (AccountId : Type 0) : Type 0 where
  new_number : Option AccountId → ℕ → Event AccountId

-- The storage item `Numbers`, the current block number that the pallet reads from frame_system, and
-- the events that it has deposited, in order.
pub record State (AccountId : Type 0) : Type 0 where
  pub block_number : ℕ
  pub numbers : List ℕ
  pub events : List (Event AccountId)

pub data Error : Type 0 where
  unknown_offchain_mux no_local_acct_for_signing offchain_signed_tx_error : Error
  offchain_unsigned_tx_error offchain_unsigned_tx_signed_payload_error http_fetching_error : Error
  deserialize_to_obj_error deserialize_to_str_error : Error
