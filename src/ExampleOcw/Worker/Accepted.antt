-- ===== src/ExampleOcw/Worker/Accepted.antt =====
-- What a run of the worker puts into the pool, and what the chain takes.
use substrate_node_template.Common.{
  ℕ, ◌≤◌, ◌≡◌, refl, if◌then◌else◌, from_result, inl, inr, Bool, true, Bool-cases, some, arith,
  Result, List, err, String, Run, ltb,
}
use substrate_node_template.Offchain.{
  Host, Submitter, Submitted, signed_tx, unsigned_tx, map_submitted,
}
use substrate_node_template.ExampleOcw.Types.{
  Config, State, Call, PricePayload, TransactionType, signed, unsigned_for_any, unsigned_for_all,
  raw,
}
use substrate_node_template.ExampleOcw.Parse.{LiteJson}
use substrate_node_template.ExampleOcw.Validity.Window.{IsWelcome}
use substrate_node_template.ExampleOcw.Worker.{send, too_early, price_payload}
use substrate_node_template.Offchain.Pool.{
  Image, Adds, Adds-Keeps, Adds-map, HostLaws, SubmitterLaws,
}
use substrate_node_template.ExampleOcw.Worker.Pool.{after_fetch}

module _ {Public Signature : Type 0} (verify : PricePayload Public → Signature → Bool) (host : Host)
    (submitter : Submitter
      (Host.World host)
      Public
      Signature
      (Call Public Signature)
      (PricePayload Public))
    {C : Type 0} (embed : Call Public Signature → C)
    (pool : Host.World host → List (Submitted C)) where
  open host use {World}
  open submitter use {Account, can_sign}

  module _ (host_laws : HostLaws host pool) (laws : SubmitterLaws submitter verify embed pool)
      (json : LiteJson) where
    open laws use {signed_all_adds, any_adds, all_adds, submit_adds}

    module _ {AccountId : Type 0} (config : Config) (s : State AccountId) (block_number : ℕ)
        (now : block_number ≤ s.block_number) where
      guarded :
          (k : Run World String (Unit {0})) (w w' : World) (r : Result String (Unit {0}))
          → (s.next_unsigned_at ≤ block_number
              → k w ≡ some (r, w')
              → Adds pool (Image (map_submitted embed) (IsWelcome config verify s)) w w')
          → (if ltb block_number s.next_unsigned_at then from_result (err too_early) else k) w
            ≡ some (r, w')
          → Adds pool (Image (map_submitted embed) (IsWelcome config verify s)) w w'
      guarded k w w' r add e = elim (Bool-cases (ltb block_number s.next_unsigned_at)) [
        | inl early ↦ Adds-Keeps pool w w' (ground arith)
        | inr due ↦ add (ground arith) (rw due at e)
      ]

      payload-IsWelcome :
          {Account : Type 0} (f : Account → PricePayload Public)
          → s.next_unsigned_at ≤ block_number
          → ((a : Account) → (f a).block_number ≡ block_number)
          → (c : Submitted C)
          → ((a : Account) × (g : Signature) × (verify (f a) g ≡ true)
              × (c ≡ unsigned_tx (embed (Call.submit_price_unsigned_with_signed_payload (f a) g))))
          → Image (map_submitted embed) (IsWelcome config verify s) c
      payload-IsWelcome f due at c (a, g, good, e) = (
        unsigned_tx (Call.submit_price_unsigned_with_signed_payload (f a) g),
        e,
        (good, omega (arith, at a), omega (arith, at a)),
      )

      -- A run of the worker is for a block not after the current one of the state that it reads, and
      -- the host and the signer obey their laws. Then every transaction that the run adds to the
      -- pool is welcome in that state: it is signed and calls `submit_price`, or it is unsigned, with
      -- one of the other two calls, its claimed block lies in the window and the signature of its
      -- payload is good. So for every kind of transaction and every end of the run.
      pub send-Adds :
          (kind : TransactionType) (w w' : World) (r : Result String (Unit {0}))
          → send host json submitter kind block_number s w ≡ some (r, w')
          → Adds pool (Image (map_submitted embed) (IsWelcome config verify s)) w w'
      unfolding send
      send-Adds TransactionType.none w w' r e = Adds-Keeps pool w w' (ground arith)
      send-Adds raw w w' r e =
          guarded _ w w' r
            (λ due. after_fetch host json submitter pool host_laws _ w w' r λ price w₁ e₁ kept.
              Adds-map pool
                (λ c e.
                  (unsigned_tx (Call.submit_price_unsigned block_number price), e, (due, now)))
                kept (ground arith)
                (submit_adds (Call.submit_price_unsigned block_number price) w₁))
            e
      send-Adds unsigned_for_any w w' r e =
          guarded _ w w' r
            (λ due. after_fetch host json submitter pool host_laws _ w w' r λ price w₁ e₁ kept.
              Adds-map pool
                (payload-IsWelcome (price_payload host json submitter block_number price) due
                  (λ a. refl))
                kept (ground arith)
                (any_adds (price_payload host json submitter block_number price)
                  Call.submit_price_unsigned_with_signed_payload w₁))
            e
      send-Adds unsigned_for_all w w' r e =
          guarded _ w w' r
            (λ due. after_fetch host json submitter pool host_laws _ w w' r λ price w₁ e₁ kept.
              Adds-map pool
                (payload-IsWelcome (price_payload host json submitter block_number price) due
                  (λ a. refl))
                kept (ground arith)
                (all_adds (price_payload host json submitter block_number price)
                  Call.submit_price_unsigned_with_signed_payload w₁))
            e
      send-Adds signed w w' r e = elim (Bool-cases (can_sign w)) [
        | inl able ↦
            after_fetch host json submitter pool host_laws _ w w' r
              (λ price w₁ e₁ kept.
                Adds-map pool (λ c e. (signed_tx (Call.submit_price price), e.1, tt)) kept
                  (ground arith) (signed_all_adds (λ _. Call.submit_price price) w₁))
              (rw able at e)
        | inr unable ↦ Adds-Keeps pool w w' (ground arith)
      ]
