-- ===== src/Ocw/Worker.antt =====
-- The off-chain worker of pallet-ocw: one of four jobs for each block. Log lines are left out.
pub mod Jobs
pub mod Accepted
use substrate_node_template.Common.{
  ℕ, ◌%◌, String, Option, none, some, List, Result, ok, err, Run, from_result, lift, map_err, ◌>>=◌,
  ltb, ◌==◌, if◌then◌else◌, as_u32, u64_values,
}
use substrate_node_template.Offchain.{Host, Submitter}
use substrate_node_template.Ocw.Types.{
  State, Call, Payload, HackerNewsInfo, Error, unknown_offchain_mux, no_local_acct_for_signing,
  offchain_signed_tx_error, offchain_unsigned_tx_error, offchain_unsigned_tx_signed_payload_error,
}
use substrate_node_template.Ocw.Fetch.{InfoStorage, fetch_remote_info}

-- `try_into` to an unsigned type of `values` values.
abbrev pub try_into : ℕ → ℕ → Option ℕ
try_into values n = if ltb n values then some n else none

abbrev pub tx_types : ℕ
tx_types = 4

abbrev pub mux_of : Option ℕ → ℕ
mux_of none = tx_types
mux_of (some bn) = as_u32 bn % tx_types

-- `modu`; a `usize` has `usize_values` values.
unfoldable pub modu : ℕ → ℕ → ℕ
modu usize_values block_number = mux_of (try_into usize_values block_number)

-- `block_number.try_into().unwrap_or(0)`
abbrev or_zero : Option ℕ → ℕ
or_zero none = 0
or_zero (some n) = n

unfoldable pub number_of_block : ℕ → ℕ
number_of_block block_number = or_zero (try_into u64_values block_number)

-- What a signed and an unsigned transaction return, by what the signer returns.
abbrev pub signed_result :
    {Account : Type 0} → Option (Account × Result (Unit {0}) (Unit {0})) → Result Error (Unit {0})
signed_result none = err no_local_acct_for_signing
signed_result (some (_, ok _)) = ok tt
signed_result (some (_, err _)) = err offchain_signed_tx_error

abbrev pub payload_result :
    {Account : Type 0} → Option (Account × Result (Unit {0}) (Unit {0})) → Result Error (Unit {0})
payload_result none = err no_local_acct_for_signing
payload_result (some (_, res)) = map_err (λ _. offchain_unsigned_tx_signed_payload_error) res

module _ {Public Signature : Type 0} (host : Host) (from_json : List ℕ → Option HackerNewsInfo)
    (storage : InfoStorage (Host.World host))
    (submitter : Submitter
      (Host.World host)
      Public
      Signature
      (Call Public Signature)
      (Payload Public)) where
  open host use {World}
  open submitter use {Account, account_public, send_signed_any, send_unsigned_any, submit_unsigned}

  unfoldable pub offchain_signed_tx : ℕ → Run World Error (Unit {0})
  offchain_signed_tx block_number = do
    result ← lift (send_signed_any (λ _. Call.submit_number_signed (number_of_block block_number)))
    from_result (signed_result result)

  unfoldable pub offchain_unsigned_tx : ℕ → Run World Error (Unit {0})
  offchain_unsigned_tx block_number = do
    result ← lift (submit_unsigned (Call.submit_number_unsigned (number_of_block block_number)))
    from_result (map_err (λ _. offchain_unsigned_tx_error) result)

  unfoldable pub offchain_unsigned_tx_signed_payload : ℕ → Run World Error (Unit {0})
  offchain_unsigned_tx_signed_payload block_number = do
    result ← lift (
        send_unsigned_any
          (λ acct. record { number = number_of_block block_number; public = account_public acct })
          Call.submit_number_unsigned_with_signed_payload)
    from_result (payload_result result)

  -- The `result` of the entry point.
  unfoldable pub worker_result :
      ℕ → {AccountId : Type 0} → ℕ → State AccountId → Run World Error (Unit {0})
  worker_result usize_values block_number s =
      let kind = modu usize_values block_number in
      if kind == 0
      then offchain_signed_tx block_number
      else if kind == 1
      then offchain_unsigned_tx block_number
      else if kind == 2
      then offchain_unsigned_tx_signed_payload block_number
      else if kind == 3
      then fetch_remote_info host from_json storage s
      else from_result (err unknown_offchain_mux)

  -- The entry point: an error of the run is only logged. `none` is a panic.
  unfoldable pub offchain_worker :
      ℕ → {AccountId : Type 0} → ℕ → State AccountId → World → Option World
  offchain_worker usize_values block_number s w =
      elim (worker_result usize_values block_number s w) [ none ↦ none | some (res, w') ↦ some w' ]
