-- ===== src/Offchain.antt =====
-- What the off-chain workers take from their host (sp_io, sp_runtime::offchain) and from
-- frame_system::offchain. None of it is part of the repository, so it is given by records of
-- functions over an unknown `World`; what the documentation promises is stated in records of laws.
pub mod Pool
use substrate_node_template.Common.{ℕ, Bool, String, Option, some, List, ◌≡◌, Result, ok, err}

-- sp_runtime::offchain::http::Error
pub data HttpError : Type 0 where
  deadline_reached io_error unknown : HttpError

-- Time, HTTP requests and their responses.
pub record Host : Type 1 where
  pub World : Type 0
  pub Pending : Type 0
  pub Response : Type 0
  -- sp_io::offchain::timestamp(), in milliseconds, and Timestamp::add
  pub timestamp : World → ℕ × World
  pub add_millis : ℕ → ℕ → ℕ
  -- http::Request::get(url).deadline(deadline).send(), with the error forgotten
  pub send : String → ℕ → World → Option Pending × World
  -- PendingRequest::try_wait(deadline)
  pub try_wait : Pending → ℕ → World → Result Pending (Result HttpError Response) × World
  pub code : Response → ℕ
  -- response.body().collect::<Vec<u8>>()
  pub body : Response → World → List ℕ × World

-- sp_runtime::offchain::storage::MutateStorageError
pub data MutateStorageError (V E : Type 0) : Type 0 where
  concurrent_modification : V → MutateStorageError V E
  value_function_failed : E → MutateStorageError V E

-- StorageValueRef::persistent(key).mutate(f) for values of type V
pub record MutableStorage (World V : Type 0) : Type 1 where
  pub RetrievalError : Type 0
  pub mutate :
      String
      → (Result RetrievalError (Option V) → Result (Unit {0}) V)
      → World
      → Result (MutateStorageError V (Unit {0})) V × World

-- `mutate` is atomic: it gives the value that is stored to the function; it stores what the
-- function returns, or it stores nothing and says why. `stored` is what is under the key.
pub data MutateOutcome {World V : Type 0} (m : MutableStorage World V)
    (stored : World → Result (MutableStorage.RetrievalError m) (Option V))
    (f : Result (MutableStorage.RetrievalError m) (Option V) → Result (Unit {0}) V) (w : World)
    (out : Result (MutateStorageError V (Unit {0})) V × World) : Type 0 where
  written :
      (v : V)
      → f (stored w) ≡ ok v
      → out.0 ≡ ok v
      → stored out.1 ≡ ok (some v)
      → MutateOutcome m stored f w out
  declined :
      (e : Unit {0})
      → f (stored w) ≡ err e
      → out.0 ≡ err (value_function_failed e)
      → stored out.1 ≡ stored w
      → MutateOutcome m stored f w out
  raced :
      (v : V)
      → out.0 ≡ err (concurrent_modification v)
      → stored out.1 ≡ stored w
      → MutateOutcome m stored f w out

-- frame_system::offchain: the signer of the pallet's key type, and the transaction pool.
pub record Submitter (World Public Signature Call Payload : Type 0) : Type 1 where
  pub Account : Type 0
  pub account_public : Account → Public
  -- Signer::all_accounts().can_sign()
  pub can_sign : World → Bool
  -- Signer::all_accounts().send_signed_transaction(f), and with any_account()
  pub send_signed_all :
      (Account → Call) → World → List (Account × Result (Unit {0}) (Unit {0})) × World
  pub send_signed_any :
      (Account → Call) → World → Option (Account × Result (Unit {0}) (Unit {0})) × World
  -- Signer::any_account().send_unsigned_transaction(f, g), and with all_accounts()
  pub send_unsigned_any :
      (Account → Payload)
      → (Payload → Signature → Call)
      → World
      → Option (Account × Result (Unit {0}) (Unit {0})) × World
  pub send_unsigned_all :
      (Account → Payload)
      → (Payload → Signature → Call)
      → World
      → List (Account × Result (Unit {0}) (Unit {0})) × World
  -- SubmitTransaction::submit_unsigned_transaction(call)
  pub submit_unsigned : Call → World → Result (Unit {0}) (Unit {0}) × World

-- A transaction as it is submitted: signed by an account, or unsigned.
pub data Submitted (C : Type 0) : Type 0 where
  signed_tx unsigned_tx : C → Submitted C

abbrev pub map_submitted : {A B : Type 0} → (A → B) → Submitted A → Submitted B
map_submitted f (signed_tx a) = signed_tx (f a)
map_submitted f (unsigned_tx a) = unsigned_tx (f a)
