-- ===== src/ExampleOcw/Calls/Effects.antt =====
-- What a dispatched call does to the storage, on every branch.
use substrate_node_template.Common.{ℕ, ◌+◌, ◌%◌, ◌<◌, ◌≡◌, refl, ok, err, Result, arith, u32_values}
use substrate_node_template.Frame.{System, Dispatch, done, check_origin, BadOrigin}
use substrate_node_template.ExampleOcw.Types.{Config, State, Call}
use substrate_node_template.ExampleOcw.Prices.Inserted.{with_price}
use substrate_node_template.ExampleOcw.Prices.Bounds.{
  IsBounded, with_price-IsBounded, added, add_price-added,
}
use substrate_node_template.ExampleOcw.Calls.{dispatch}

-- The price that a call carries.
abbrev pub price_of : {Public Signature : Type 0} → Call Public Signature → ℕ
price_of (Call.submit_price price) = price
price_of (Call.submit_price_unsigned block_number price) = price
price_of (Call.submit_price_unsigned_with_signed_payload payload signature) = payload.price

check_cong :
    {S A : Type 0} (r : Result BadOrigin A) (s : S) (f g : A → Dispatch ⊥ S)
    → ((a : A) → f a ≡ g a)
    → check_origin r s f ≡ check_origin r s g
check_cong (ok a) s f g h = h a
check_cong (err e) s f g h = refl

module _ (sys : System) (config : Config) where
  open sys use {Origin, AccountId, ensure_signed, ensure_none, default_account}

  -- The state after a call of an unsigned transaction.
  abbrev pub added_unsigned : ℕ → State AccountId → State AccountId
  added_unsigned price s = record (added default_account price s) {
    next_unsigned_at = (s.block_number + config.unsigned_interval) % config.block_values;
  }

  module _ {Public Signature : Type 0} where
    -- The two outcomes of each call, by its origin check.
    abbrev pub outcome :
        Call Public Signature → Origin → State AccountId → Dispatch ⊥ (State AccountId)
    outcome (Call.submit_price price) origin s =
        check_origin (ensure_signed origin) s λ who. done (added who price s)
    outcome c origin s =
        check_origin (ensure_none origin) s λ _. done (added_unsigned (price_of c) s)

    -- A call never panics. With the origin that it asks for, it adds its price to the list and
    -- deposits one `NewPrice` event, of the signer for a signed call and of the default account for
    -- the other two, which also set the next accepted block to the current one plus the interval.
    -- With any other origin it fails and changes nothing.
    pub dispatch-outcome :
        (c : Call Public Signature) (origin : Origin) (s : State AccountId)
        → dispatch sys config c origin s ≡ outcome c origin s
    unfolding dispatch
    dispatch-outcome (Call.submit_price price) origin s =
        check_cong (ensure_signed origin) s _ _ λ who. rw (add_price-added who price s)
    dispatch-outcome (Call.submit_price_unsigned block_number price) origin s =
        check_cong (ensure_none origin) s _ _ λ _. rw (add_price-added default_account price s)
    dispatch-outcome (Call.submit_price_unsigned_with_signed_payload payload signature) origin s =
        check_cong (ensure_none origin) s _ _
          λ _. rw (add_price-added default_account payload.price s)

    pub prices-dispatch :
        (c : Call Public Signature) (origin : Origin) (s : State AccountId) {t : State AccountId}
        → dispatch sys config c origin s ≡ done t
        → (t.prices ≡ with_price s.prices (price_of c)) × (t.block_number ≡ s.block_number)
    prices-dispatch (Call.submit_price price) origin s e =
        ground (arith, dispatch-outcome (Call.submit_price price) origin s)
    prices-dispatch c origin s e = ground (arith, dispatch-outcome c origin s)

    -- A call that carries a u32 keeps the list at most 64 long, with every price a u32.
    pub dispatch-IsBounded :
        (c : Call Public Signature) (origin : Origin) (s : State AccountId) {t : State AccountId}
        → price_of c < u32_values
        → IsBounded s.prices
        → dispatch sys config c origin s ≡ done t
        → IsBounded t.prices
    dispatch-IsBounded c origin s word h e =
        rw (prices-dispatch c origin s e).0 (with_price-IsBounded s.prices (price_of c) word h)
