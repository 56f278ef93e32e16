-- ===== src/ExampleOcw/Validity.antt =====
-- Which unsigned transactions pallet-example-offchain-worker accepts.
pub mod Window
pub mod Priority
use substrate_node_template.Common.{
  ℕ, ◌+◌, ◌-◌, u32_values, Bool, true, not, Option, none, some, ok, err, ltb, if◌then◌else◌,
  saturating_add64,
}
use substrate_node_template.Frame.{
  TransactionValidity, ValidTransaction, InvalidTransaction, stale, future, bad_proof,
}
use substrate_node_template.ExampleOcw.Types.{Config, State, Call, PricePayload}
use substrate_node_template.ExampleOcw.Prices.{average_price}

-- A difference of u32, which wraps in a release build.
abbrev pub wrapping_sub32 : ℕ → ℕ → ℕ
wrapping_sub32 a b = if ltb a b then a + u32_values - b else a - b

-- How far a new price lies from the average, 0 if there is none.
unfoldable pub distance_to_average : Option ℕ → ℕ → ℕ
distance_to_average none new_price = 0
distance_to_average (some price) new_price =
    if ltb new_price price then wrapping_sub32 price new_price else wrapping_sub32 new_price price

module _ {AccountId : Type 0} (config : Config) where
  -- What the builder of a valid transaction is given.
  unfoldable pub valid_transaction : State AccountId → ℕ → ValidTransaction ℕ
  unfolding distance_to_average
  valid_transaction s new_price = record {
    tag_prefix = "ExampleOffchainWorker";
    priority =
        saturating_add64 config.unsigned_priority (distance_to_average (average_price s) new_price);
    provides = s.next_unsigned_at;
    longevity = 5;
    propagate = true;
  }

  unfoldable pub validate_transaction_parameters : State AccountId → ℕ → ℕ → TransactionValidity ℕ
  validate_transaction_parameters s block_number new_price =
      if ltb block_number s.next_unsigned_at
      then err stale
      else if ltb s.block_number block_number
      then err future
      else ok (valid_transaction s new_price)

  -- `verify` is `SignedPayload::<T>::verify::<T::AuthorityId>`.
  module _ {Public Signature : Type 0} (verify : PricePayload Public → Signature → Bool) where
    unfoldable pub validate_unsigned :
        State AccountId → Call Public Signature → TransactionValidity ℕ
    unfolding validate_transaction_parameters
    validate_unsigned s (Call.submit_price_unsigned_with_signed_payload payload signature) =
        if not (verify payload signature)
        then err bad_proof
        else validate_transaction_parameters s payload.block_number payload.price
    validate_unsigned s (Call.submit_price_unsigned block_number new_price) =
        validate_transaction_parameters s block_number new_price
    validate_unsigned s (Call.submit_price price) = err InvalidTransaction.call
