-- ===== src/ExampleOcw/Worker/Spacing.antt =====
-- How often workers send: `choose_transaction_type` over the runs of all workers of a node.
use native.Mathlib.Nat.{mod-eq_of_lt}
use substrate_node_template.Common.{
  ℕ, ◌+◌, ◌≤◌, ◌<◌, ◌≡◌, ap, ◌∙◌, ◌⊎◌, inl, inr, Option, none, some, List, [], ◌∷◌, arith, Result,
  ok, err, All,
}
use substrate_node_template.Offchain.{MutableStorage, MutateOutcome, written, declined, raced}
use substrate_node_template.ExampleOcw.Types.{Config, TransactionType}
use substrate_node_template.ExampleOcw.Worker.{
  next_last_send, transaction_type, type_of_mutation, choose_transaction_type, last_send_key,
}

-- Each block number lies at least `gap` above the one before it.
abbrev pub Spaced : ℕ → List ℕ → Type 0
Spaced gap [] = Unit
Spaced gap (b ∷ []) = Unit
Spaced gap (b ∷ c ∷ bs) = (b + gap ≤ c) × Spaced gap (c ∷ bs)

-- A block number is noted if its run sends.
abbrev pub note : TransactionType → ℕ → List ℕ → List ℕ
note TransactionType.none b rest = rest
note _ b rest = b ∷ rest

note_send : (b : ℕ) (rest : List ℕ) → note (transaction_type b) b rest ≡ b ∷ rest
unfolding transaction_type
note_send b rest = ground arith

module _ (config : Config) {World : Type 0} (storage : MutableStorage World ℕ) where
  open storage use {RetrievalError, mutate}

  -- The block numbers whose runs send, when workers run for the given block numbers in turn.
  unfoldable pub senders : List ℕ → World → List ℕ
  senders [] w = []
  senders (b ∷ bs) w =
      let (kind, w') = choose_transaction_type config storage b w in note kind b (senders bs w')

  abbrev Sends :
      ℕ → World → (World → Result RetrievalError (Option ℕ)) → TransactionType × World → Type 0
  Sends b w stored out =
      (out.0 ≡ transaction_type b)
      × (stored out.1 ≡ ok (some b))
      × (next_last_send config storage b (stored w) ≡ ok b)

  next_last_send-ok :
      (b : ℕ) (x : Result RetrievalError (Option ℕ)) {v : ℕ}
      → next_last_send config storage b x ≡ ok v
      → v ≡ b
  unfolding next_last_send
  next_last_send-ok b (ok none) e = ground arith
  next_last_send-ok b (ok (some c)) e = ground arith
  next_last_send-ok b (err x) e = ground arith

  next_last_send_due :
      (b c : ℕ) {v : ℕ}
      → c + config.grace_period < config.block_values
      → next_last_send config storage b (ok (some c)) ≡ ok v
      → c + config.grace_period ≤ b
  unfolding next_last_send
  next_last_send_due b c fit e = ground (arith, mod-eq_of_lt fit)

  module _ (stored : World → Result RetrievalError (Option ℕ))
      (atomic : (f : Result RetrievalError (Option ℕ) → Result (Unit {0}) ℕ) (w : World)
        → MutateOutcome storage stored f w (mutate last_send_key f w)) where
    -- A run stores its block number and sends, or leaves the stored one alone and does not send.
    choose_cases :
        (b : ℕ) (w : World)
        → Sends b w stored (choose_transaction_type config storage b w)
          ⊎ (((choose_transaction_type config storage b w).0 ≡ TransactionType.none)
              × (stored (choose_transaction_type config storage b w).1 ≡ stored w))
    unfolding choose_transaction_type
    choose_cases b w = go (atomic (next_last_send config storage b) w)
      where
        go :
            MutateOutcome storage stored
              (next_last_send config storage b)
              w
              (mutate last_send_key (next_last_send config storage b) w)
            → Sends b w stored (choose_transaction_type config storage b w)
              ⊎ (((choose_transaction_type config storage b w).0 ≡ TransactionType.none)
                  × (stored (choose_transaction_type config storage b w).1 ≡ stored w))
        go (written v given res kept) =
            let e = next_last_send-ok b (stored w) given in
            inl (rw (res, type_of_mutation) (ap transaction_type e), rw e at kept, rw e at given)
        go (declined e given res kept) = inr (rw (res, type_of_mutation), kept)
        go (raced v res kept) = inr (rw (res, type_of_mutation), kept)

    senders_after :
        (bs : List ℕ) (w : World) (c : ℕ)
        → stored w ≡ ok (some c)
        → c + config.grace_period < config.block_values
        → All (λ b. b + config.grace_period < config.block_values) bs
        → Spaced config.grace_period (c ∷ senders bs w)
    unfolding senders
    senders_after [] w c at fit all = tt
    senders_after (b ∷ bs) w c at fit (fit', all) = elim (choose_cases b w) [
      | inl (sent, kept, due) ↦
          rw (sent, note_send)
            (next_last_send_due b c fit (rw at at due), senders_after bs _ b kept fit' all)
      | inr (idle, kept) ↦ rw idle (senders_after bs _ c (kept ∙ at) fit all)
    ]

    -- Workers run for any block numbers in any order, each `mutate` is atomic, and the grace period
    -- added to none of the numbers wraps. Then each run that sends is for a block at least a grace
    -- period after the block of the sending run before it, whatever was stored at first.
    pub senders-Spaced :
        (bs : List ℕ) (w : World)
        → All (λ b. b + config.grace_period < config.block_values) bs
        → Spaced config.grace_period (senders bs w)
    unfolding senders
    senders-Spaced [] w all = tt
    senders-Spaced (b ∷ bs) w (fit, all) = elim (choose_cases b w) [
      | inl (sent, kept, due) ↦ rw (sent, note_send) (senders_after bs _ b kept fit all)
      | inr (idle, kept) ↦ rw idle (senders-Spaced bs _ all)
    ]
