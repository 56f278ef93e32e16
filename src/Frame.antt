-- ===== src/Frame.antt =====
-- What the pallets take from FRAME: origins, dispatch results and transaction validity.
-- FRAME is not part of the repository: its functions are the fields of `System`, and what its
-- documentation promises of them is `IsLawful`. The enumerations below list the values that the
-- pallets name.
use substrate_node_template.Common.{ℕ, Bool, String, ◌≡◌, Result, ok, err}

pub data BadOrigin : Type 0 where
  bad_origin : BadOrigin

pub record System : Type 1 where
  pub Origin : Type 0
  pub AccountId : Type 0
  -- frame_system::ensure_signed, frame_system::ensure_none
  pub ensure_signed : Origin → Result BadOrigin AccountId
  pub ensure_none : Origin → Result BadOrigin (Unit {0})
  -- <AccountId as Default>::default()
  pub default_account : AccountId

-- An origin that carries a signer is not the origin of an unsigned transaction.
pub record IsLawful (sys : System) : Type 0 where
  pub signed_not_none :
      (o : sys.Origin) (who : sys.AccountId)
      → sys.ensure_signed o ≡ ok who
      → sys.ensure_none o ≡ err bad_origin

-- Why a dispatchable fails: its origin, or an error of the pallet.
pub data DispatchError (E : Type 0) : Type 0 where
  origin_error : BadOrigin → DispatchError E
  module_error : E → DispatchError E

-- How a dispatchable ends. FRAME keeps what was written before an error, so the storage is there
-- too. `panicked` stands for a panic of the runtime.
pub data Dispatch (E S : Type 0) : Type 0 where
  done : S → Dispatch E S
  failed : DispatchError E → S → Dispatch E S
  panicked : Dispatch E S

-- `?` on an origin check.
abbrev pub check_origin :
    {E S A : Type 0} → Result BadOrigin A → S → (A → Dispatch E S) → Dispatch E S
check_origin (ok a) s k = k a
check_origin (err e) s k = failed (origin_error e) s

-- The storage after a transaction: a failed one keeps what it has written.
abbrev pub state_after : {E S : Type 0} → S → Dispatch E S → S
state_after s (done t) = t
state_after s (failed e t) = t
state_after s panicked = s

-- sp_runtime::transaction_validity, as far as the pallets name it
pub data InvalidTransaction : Type 0 where
  call stale future bad_proof : InvalidTransaction

-- What the pallets give to the builder of a valid transaction.
pub record ValidTransaction (Tag : Type 0) : Type 0 where
  pub tag_prefix : String
  pub priority : ℕ
  pub provides : Tag
  pub longevity : ℕ
  pub propagate : Bool

abbrev pub TransactionValidity : Type 0 → Type 0
TransactionValidity Tag = Result InvalidTransaction (ValidTransaction Tag)
