-- ===== src/Ocw/Validity.antt =====
-- Which unsigned transactions pallet-ocw accepts.
use substrate_node_template.Common.{Bool, true, not, String, ok, err, if◌then◌else◌}
use substrate_node_template.Frame.{
  TransactionValidity, ValidTransaction, InvalidTransaction, bad_proof,
}
use substrate_node_template.Ocw.Types.{Call, Payload, unsigned_txs_priority}

unfoldable pub valid_tx : String → ValidTransaction String
valid_tx provide = record {
  tag_prefix = "ocw-demo";
  priority = unsigned_txs_priority;
  provides = provide;
  longevity = 3;
  propagate = true;
}

-- `verify` is `SignedPayload::<T>::verify::<T::AuthorityId>`.
module _ {Public Signature : Type 0} (verify : Payload Public → Signature → Bool) where
  unfoldable pub validate_unsigned : Call Public Signature → TransactionValidity String
  unfolding valid_tx
  validate_unsigned (Call.submit_number_unsigned number) = ok (valid_tx "submit_number_unsigned")
  validate_unsigned (Call.submit_number_unsigned_with_signed_payload payload signature) =
      if not (verify payload signature)
      then err bad_proof
      else ok (valid_tx "submit_number_unsigned_with_signed_payload")
  validate_unsigned (Call.submit_number_signed number) = err InvalidTransaction.call
