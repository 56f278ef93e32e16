-- ===== src/ExampleOcw/Validity/Priority.antt =====
-- How valid transactions are ranked in the pool.
use substrate_node_template.Common.{ℕ, ◌+◌, ◌-◌, ◌≤◌, ◌≡◌, Bool, some, ok, arith, min, u64_values}
use substrate_node_template.Frame.{ValidTransaction}
use substrate_node_template.ExampleOcw.Types.{Config, State, Call, PricePayload}
use substrate_node_template.ExampleOcw.Prices.{average_price}
use substrate_node_template.ExampleOcw.Calls.Effects.{price_of}
use substrate_node_template.ExampleOcw.Validity.{validate_unsigned, valid_transaction}
use substrate_node_template.ExampleOcw.Validity.Window.{valid_of_call}

module _ {AccountId : Type 0} (config : Config) where
  priority_mono :
      (s : State AccountId) (p q : ℕ) {a : ℕ}
      → average_price s ≡ some a
      → (a - p) + (p - a) ≤ (a - q) + (q - a)
      → (valid_transaction config s p).priority ≤ (valid_transaction config s q).priority
  unfolding valid_transaction
  priority_mono s p q e h = ground arith

  priority_exact :
      (s : State AccountId) (p : ℕ) {a : ℕ}
      → average_price s ≡ some a
      → (valid_transaction config s p).priority
        ≡ min (config.unsigned_priority + ((a - p) + (p - a))) (u64_values - 1)
  unfolding valid_transaction
  priority_exact s p e = ground arith

  module _ {Public Signature : Type 0} (verify : PricePayload Public → Signature → Bool) where
    -- There is an average. A valid transaction has the base priority and, on top of it, the distance
    -- of its price from the average, on either side, cut off at the largest u64. So of two
    -- transactions valid in the same state the one whose price lies further from the average has at
    -- least the other's priority.
    pub priority_by_distance :
        (s : State AccountId) (c d : Call Public Signature) {a : ℕ} {v w : ValidTransaction ℕ}
        → average_price s ≡ some a
        → (a - price_of c) + (price_of c - a) ≤ (a - price_of d) + (price_of d - a)
        → validate_unsigned config verify s c ≡ ok v
        → validate_unsigned config verify s d ≡ ok w
        → (v.priority
            ≡ min
                (config.unsigned_priority + ((a - price_of c) + (price_of c - a)))
                (u64_values - 1))
          × (w.priority
              ≡ min
                  (config.unsigned_priority + ((a - price_of d) + (price_of d - a)))
                  (u64_values - 1))
          × (v.priority ≤ w.priority)
    priority_by_distance s c d e far h k =
        rw (valid_of_call config verify s c h, valid_of_call config verify s d k)
          (
            priority_exact s (price_of c) e,
            priority_exact s (price_of d) e,
            priority_mono s (price_of c) (price_of d) e far,
          )
