-- ===== src/ExampleOcw/Validity/Window.antt =====
-- Which unsigned transactions are valid.
use substrate_node_template.Common.{ℕ, ◌≤◌, ◌≡◌, ◌↔◌, Bool, true, ok, arith}
use substrate_node_template.Frame.{ValidTransaction}
use substrate_node_template.Offchain.{Submitted, signed_tx, unsigned_tx}
use substrate_node_template.ExampleOcw.Types.{Config, State, Call, PricePayload}
use substrate_node_template.ExampleOcw.Validity.{validate_unsigned, valid_transaction}
use substrate_node_template.ExampleOcw.Calls.Effects.{price_of}

module _ {AccountId : Type 0} (config : Config) where
  module _ {Public Signature : Type 0} (verify : PricePayload Public → Signature → Bool) where
    -- The calls that are open to unsigned transactions: the claimed block lies between the next
    -- accepted block and the current one, and a signed payload has a good signature.
    abbrev pub IsAcceptable : State AccountId → Call Public Signature → Type 0
    IsAcceptable s (Call.submit_price price) = ⊥
    IsAcceptable s (Call.submit_price_unsigned block_number price) =
        (s.next_unsigned_at ≤ block_number) × (block_number ≤ s.block_number)
    IsAcceptable s (Call.submit_price_unsigned_with_signed_payload payload signature) =
        (verify payload signature ≡ true)
        × (s.next_unsigned_at ≤ payload.block_number)
        × (payload.block_number ≤ s.block_number)

    -- A transaction that the chain takes in state `s`: a signed one with the call for it, or an
    -- unsigned one with a call that is acceptable without a signer.
    abbrev pub IsWelcome : State AccountId → Submitted (Call Public Signature) → Type 0
    IsWelcome s (signed_tx (Call.submit_price price)) = Unit
    IsWelcome s (signed_tx (Call.submit_price_unsigned block_number price)) = ⊥
    IsWelcome s (signed_tx (Call.submit_price_unsigned_with_signed_payload payload signature)) = ⊥
    IsWelcome s (unsigned_tx c) = IsAcceptable s c

    -- An unsigned call is valid exactly when it is one of the two unsigned ones, the block that it
    -- claims lies between the next accepted block and the current one, both included, and the
    -- signature of a signed payload is good.
    pub validate_unsigned_iff :
        (s : State AccountId) (c : Call Public Signature)
        → ((v : ValidTransaction ℕ) × (validate_unsigned config verify s c ≡ ok v))
          ↔ IsAcceptable s c
    unfolding validate_unsigned
    validate_unsigned_iff s (Call.submit_price price) =
        ((λ h. ground (arith, h.1)), (λ h. absurd h))
    validate_unsigned_iff s (Call.submit_price_unsigned block_number price) =
        ((λ h. ground (arith, h.1)), (λ h. (valid_transaction config s price, ground arith)))
    validate_unsigned_iff s (Call.submit_price_unsigned_with_signed_payload payload signature) = (
      (λ h. ground (arith, h.1)),
      (λ h. (valid_transaction config s payload.price, ground arith)),
    )

    -- Whatever is valid is built from the state and the price of the call alone.
    pub valid_of_call :
        (s : State AccountId) (c : Call Public Signature) {v : ValidTransaction ℕ}
        → validate_unsigned config verify s c ≡ ok v
        → v ≡ valid_transaction config s (price_of c)
    unfolding validate_unsigned
    valid_of_call s (Call.submit_price price) h = absurd (ground arith)
    valid_of_call s (Call.submit_price_unsigned block_number price) h = ground arith
    valid_of_call s (Call.submit_price_unsigned_with_signed_payload payload signature) h =
        ground arith

    -- Two unsigned transactions that are valid in the same state provide the same tag, made of the
    -- same prefix and the next accepted block.
    pub provides_unique :
        (s : State AccountId) (c d : Call Public Signature) {v w : ValidTransaction ℕ}
        → validate_unsigned config verify s c ≡ ok v
        → validate_unsigned config verify s d ≡ ok w
        → (v.tag_prefix ≡ w.tag_prefix)
          × (v.provides ≡ w.provides)
          × (v.provides ≡ s.next_unsigned_at)
    unfolding valid_transaction
    provides_unique s c d h k = ground (arith, valid_of_call s c h, valid_of_call s d k)
