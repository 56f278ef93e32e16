-- ===== src/Runtime/Transaction.antt =====
-- `create_transaction` of runtime/src/lib.rs: the extrinsic around a call that an off-chain worker signs.
use substrate_node_template.Common.{ℕ, ◌-◌, Option, none, some}

-- BlockHashCount
abbrev pub block_hash_count : ℕ
block_hash_count = 2400

-- The parts of `SignedExtra` that carry a value; the four other checks carry none.
pub record SignedExtra (Era : Type 0) : Type 0 where
  pub era : Era
  pub nonce : ℕ
  pub tip : ℕ

-- What the libraries give: `Era::mortal`, `SignedPayload::new` with its error forgotten,
-- `using_encoded` with `C::sign`, and `deconstruct` without its last part.
pub record Extrinsics : Type 1 where
  pub Era : Type 0
  pub RuntimeCall : Type 0
  pub Public : Type 0
  pub Signature : Type 0
  pub RawPayload : Type 0
  pub mortal : ℕ → ℕ → Era
  pub new_payload : RuntimeCall → SignedExtra Era → Option RawPayload
  pub sign : RawPayload → Public → Option Signature
  pub deconstruct : RawPayload → RuntimeCall × SignedExtra Era

module _ (lib : Extrinsics) where
  open lib use {
    Era, RuntimeCall, Public, Signature, RawPayload, mortal, new_payload, sign, deconstruct,
  }

  -- The block number is a u32, so `saturated_into::<u64>` keeps it; `-` stops at 0 as
  -- `saturating_sub` does.
  abbrev pub signed_extra : ℕ → ℕ → SignedExtra Era
  signed_extra block_number index = record {
    era = mortal block_hash_count (block_number - 1);
    nonce = index;
    tip = 0;
  }

  unfoldable pub create_transaction :
      {AccountId : Type 0}
      → ℕ
      → RuntimeCall
      → Public
      → AccountId
      → ℕ
      → Option (RuntimeCall × (AccountId × Signature × SignedExtra Era))
  create_transaction block_number call public account index =
      elim (new_payload call (signed_extra block_number index)) [
        | none ↦ none
        | some raw_payload ↦ elim (sign raw_payload public) [
          | none ↦ none
          | some signature ↦
              let (call', extra) = deconstruct raw_payload in
              some (call', (account, signature, extra))
        ]
      ]

  -- What a signed transaction is to carry: an era of 2400 blocks from the block before the current
  -- one, the index of the account, and no tip.
  abbrev pub expected_extra : ℕ → ℕ → SignedExtra Era
  expected_extra block_number index = record {
    era = mortal 2400 (block_number - 1);
    nonce = index;
    tip = 0;
  }
