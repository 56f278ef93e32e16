-- ===== src/ExampleOcw/Worker.antt =====
-- The off-chain worker: whether and how it sends a price. Its log lines are left out, and with them
-- the values that only they show (the parent hash, the average before a run).
pub mod Spacing
pub mod Pool
pub mod Accepted
pub mod Success
pub mod Choice
pub mod Panic
pub mod Applied
use substrate_node_template.Common.{
  ℕ, ◌+◌, ◌%◌, Bool, true, false, not, String, Option, none, some, List, [], ◌∷◌, Result, ok, err,
  ok_or, map_err, Run, ◌>>=◌, from_result, lift, map_run_err, ltb, ◌==◌, if◌then◌else◌,
}
use substrate_node_template.Offchain.{
  Host, HttpError, MutableStorage, MutateStorageError, concurrent_modification,
  value_function_failed, Submitter,
}
use substrate_node_template.ExampleOcw.Types.{
  Config, State, Call, PricePayload, TransactionType, signed, unsigned_for_any, unsigned_for_all,
  raw,
}
use substrate_node_template.ExampleOcw.Parse.{LiteJson}
use substrate_node_template.ExampleOcw.Fetch.{fetch_price}

abbrev pub last_send_key : String
last_send_key = "example_ocw::last_send"

unfoldable pub transaction_type : ℕ → TransactionType
transaction_type block_number =
    let kind = block_number % 3 in
    if kind == 0
    then signed
    else if kind == 1
    then unsigned_for_any
    else if kind == 2
    then unsigned_for_all
    else raw

-- The match on what `mutate` returns.
unfoldable pub type_of_mutation : Result (MutateStorageError ℕ (Unit {0})) ℕ → TransactionType
unfolding transaction_type
type_of_mutation (ok block_number) = transaction_type block_number
type_of_mutation (err (value_function_failed _)) = TransactionType.none
type_of_mutation (err (concurrent_modification _)) = TransactionType.none

module _ (config : Config) {World : Type 0} (storage : MutableStorage World ℕ) where
  open storage use {RetrievalError, mutate}

  -- The closure given to `mutate`: the block number to store, or `RECENTLY_SENT`.
  unfoldable pub next_last_send : ℕ → Result RetrievalError (Option ℕ) → Result (Unit {0}) ℕ
  next_last_send block_number (ok (some block)) =
      if ltb block_number ((block + config.grace_period) % config.block_values)
      then err tt
      else ok block_number
  next_last_send block_number (ok none) = ok block_number
  next_last_send block_number (err e) = ok block_number

  unfoldable pub choose_transaction_type : ℕ → World → TransactionType × World
  unfolding type_of_mutation next_last_send
  choose_transaction_type block_number w =
      let (res, w') = mutate last_send_key (next_last_send block_number) w in
      (type_of_mutation res, w')

abbrev pub too_early : String
too_early = "Too early to send unsigned transaction"

-- The loop over the results of `send_unsigned_transaction`: the first error stops it.
unfoldable pub all_submitted :
    {Account : Type 0} → List (Account × Result (Unit {0}) (Unit {0})) → Result String (Unit {0})
all_submitted [] = ok tt
all_submitted ((_, ok _) ∷ rest) = all_submitted rest
all_submitted ((_, err _) ∷ rest) = err "Unable to submit transaction"

-- The result of `any_account`, with its two errors.
abbrev pub any_result :
    {Account : Type 0} → Option (Account × Result (Unit {0}) (Unit {0})) → Result String (Unit {0})
any_result none = err "No local accounts accounts available."
any_result (some (_, result)) = map_err (λ _. "Unable to submit transaction") result

module _ {Public Signature : Type 0} (host : Host) (json : LiteJson)
    (submitter : Submitter
      (Host.World host)
      Public
      Signature
      (Call Public Signature)
      (PricePayload Public)) where
  open host use {World}
  open submitter use {
    Account, account_public, can_sign, send_signed_all, send_unsigned_any, send_unsigned_all,
    submit_unsigned,
  }

  -- `Self::fetch_price().map_err(|_| "Failed to fetch price")`
  unfoldable pub fetched : Run World String ℕ
  fetched = map_run_err (λ _. "Failed to fetch price") (fetch_price host json)

  unfoldable pub fetch_price_and_send_signed : Run World String (Unit {0})
  fetch_price_and_send_signed w =
      if not (can_sign w)
      then some
          (err "No local accounts available. Consider adding one via `author_insertKey` RPC.", w)
      else (do
        price ← fetched
        results ← lift (send_signed_all (λ _. Call.submit_price price))
        from_result (ok tt))
          w

  abbrev pub price_payload : ℕ → ℕ → Account → PricePayload Public
  price_payload block_number price account = record {
    block_number = block_number;
    price = price;
    public = account_public account;
  }

  module _ {AccountId : Type 0} where
    unfoldable pub fetch_price_and_send_raw_unsigned :
        ℕ → State AccountId → Run World String (Unit {0})
    fetch_price_and_send_raw_unsigned block_number s =
        if ltb block_number s.next_unsigned_at then from_result (err too_early) else do
          price ← fetched
          result ← lift (submit_unsigned (Call.submit_price_unsigned block_number price))
          from_result (map_err (λ _. "Unable to submit unsigned transaction.") result)

    unfoldable pub fetch_price_and_send_unsigned_for_any_account :
        ℕ → State AccountId → Run World String (Unit {0})
    fetch_price_and_send_unsigned_for_any_account block_number s =
        if ltb block_number s.next_unsigned_at then from_result (err too_early) else do
          price ← fetched
          sent ← lift (
              send_unsigned_any (price_payload block_number price)
                Call.submit_price_unsigned_with_signed_payload)
          from_result (any_result sent)

    unfoldable pub fetch_price_and_send_unsigned_for_all_accounts :
        ℕ → State AccountId → Run World String (Unit {0})
    unfolding all_submitted
    fetch_price_and_send_unsigned_for_all_accounts block_number s =
        if ltb block_number s.next_unsigned_at then from_result (err too_early) else do
          price ← fetched
          transaction_results ← lift (
              send_unsigned_all (price_payload block_number price)
                Call.submit_price_unsigned_with_signed_payload)
          from_result (all_submitted transaction_results)

    -- The match on the transaction type.
    unfoldable pub send : TransactionType → ℕ → State AccountId → Run World String (Unit {0})
    unfolding fetch_price_and_send_signed fetch_price_and_send_raw_unsigned
        fetch_price_and_send_unsigned_for_any_account fetch_price_and_send_unsigned_for_all_accounts
    send signed block_number s = fetch_price_and_send_signed
    send unsigned_for_any block_number s =
        fetch_price_and_send_unsigned_for_any_account block_number s
    send unsigned_for_all block_number s =
        fetch_price_and_send_unsigned_for_all_accounts block_number s
    send raw block_number s = fetch_price_and_send_raw_unsigned block_number s
    send TransactionType.none block_number s = from_result (ok tt)

    -- The entry point: an error of the run is only logged. `none` is a panic.
    unfoldable pub offchain_worker :
        Config → MutableStorage World ℕ → ℕ → State AccountId → World → Option World
    unfolding choose_transaction_type send
    offchain_worker config storage block_number s w =
        let (should_send, w') = choose_transaction_type config storage block_number w in
        elim (send should_send block_number s w') [ none ↦ none | some (res, w'') ↦ some w'' ]
