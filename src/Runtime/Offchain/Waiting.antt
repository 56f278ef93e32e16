-- ===== src/Runtime/Offchain/Waiting.antt =====
-- The node beside the chain: rounds of the workers and imported blocks take turns, and submitted
-- transactions wait in the pool.
use substrate_node_template.Common.{
  ℕ, ◌≤◌, ◌≡◌, ap, ◌⊎◌, inl, inr, Bool, true, some, List, [], ◌∷◌, All, All-append, All-map, ok,
  err, arith,
}
use substrate_node_template.Frame.{System, ValidTransaction, stale}
use substrate_node_template.Ocw.Types.{Payload}
use substrate_node_template.ExampleOcw.Types as ExampleTypes
use substrate_node_template.ExampleOcw.Types.{PricePayload}
use substrate_node_template.ExampleOcw.Chain.Spacing.{block_mono}
use substrate_node_template.ExampleOcw.Validity as ExampleValidity
use substrate_node_template.ExampleOcw.Validity.Window.{IsAcceptable, validate_unsigned_iff}
use substrate_node_template.Offchain.{Submitted, signed_tx, unsigned_tx}
use substrate_node_template.Runtime.{example_config}
use substrate_node_template.Runtime.Chain.{Run}
use substrate_node_template.Runtime.Chain.Oracle.{Run-oracle}
use substrate_node_template.Runtime.Pallets.{
  RuntimeCall, template_module, ocw_demo, ocw_example, RuntimeState, RuntimeTag, refused,
  validate_unsigned, tagged, tagged_ok, block_tag,
}
use substrate_node_template.Runtime.Offchain.{Environment, Hook, offchain_worker}
use substrate_node_template.Runtime.Offchain.Round.{offchain_worker-Adds}
use substrate_node_template.Runtime.Offchain.Taken.{IsSignedCall, IsTaken, EnvironmentLaws}

-- `Drops l m`: `l` is what is left of `m` after some calls are gone, in the same order.
pub data Drops {C : Type 0} : List C → List C → Type 0 where
  nothing_left : Drops [] []
  gone : {c : C} {l m : List C} → Drops l m → Drops l (c ∷ m)
  stays : {c : C} {l m : List C} → Drops l m → Drops (c ∷ l) (c ∷ m)

All-Drops : {C : Type 0} (P : C → Type 0) {l m : List C} → Drops l m → All P m → All P l
All-Drops P nothing_left h = h
All-Drops P (gone d) h = All-Drops P d h.1
All-Drops P (stays d) h = (h.0, All-Drops P d h.1)

module _ (sys : System) {Public Signature : Type 0} (verify_ocw : Payload Public → Signature → Bool)
    (verify_example : PricePayload Public → Signature → Bool) where
  open sys use {AccountId}

  -- A signed transaction with a call for it, or an unsigned one that is valid or refused as stale.
  abbrev pub IsTimely : RuntimeState AccountId → Submitted (RuntimeCall Public Signature) → Type 0
  IsTimely s (signed_tx c) = IsSignedCall c
  IsTimely s (unsigned_tx c) =
      ((v : ValidTransaction RuntimeTag) × (validate_unsigned sys verify_ocw verify_example s c
          ≡ ok v))
      ⊎ (validate_unsigned sys verify_ocw verify_example s c ≡ err (refused stale))

  later :
      {s t : RuntimeState AccountId} {l : List (RuntimeCall Public Signature)}
      → Run sys verify_ocw verify_example s l t
      → s.example.block_number ≤ t.example.block_number
  later r =
      block_mono sys example_config verify_example (Run-oracle sys verify_ocw verify_example r)

  -- An unsigned call of the oracle that is taken is acceptable.
  acceptable :
      (s : RuntimeState AccountId) (c : ExampleTypes.Call Public Signature)
      → IsTaken sys verify_ocw verify_example s (unsigned_tx (ocw_example c))
      → IsAcceptable example_config verify_example s.example c
  unfolding validate_unsigned
  acceptable s c (v, h) =
      let (w, valid, _, _) = tagged_ok block_tag _ h in
      (validate_unsigned_iff example_config verify_example s.example c).0 (w, valid)

  -- What the oracle takes or refuses as stale is timely.
  passed :
      (s : RuntimeState AccountId) (c : ExampleTypes.Call Public Signature)
      → (((v : ValidTransaction ℕ) × (ExampleValidity.validate_unsigned example_config
                verify_example s.example c
              ≡ ok v))
          ⊎ (ExampleValidity.validate_unsigned example_config verify_example s.example c
              ≡ err stale))
      → IsTimely s (unsigned_tx (ocw_example c))
  unfolding validate_unsigned
  passed s c (inl (v, h)) = inl (_, ap (tagged block_tag) h)
  passed s c (inr h) = inr (ap (tagged block_tag) h)

  -- What makes an unsigned call of the oracle timely in a state and in every later one.
  abbrev NotAhead : ExampleTypes.State AccountId → ExampleTypes.Call Public Signature → Type 0
  NotAhead s (ExampleTypes.Call.submit_price price) = ⊥
  NotAhead s (ExampleTypes.Call.submit_price_unsigned b price) = b ≤ s.block_number
  NotAhead s (ExampleTypes.Call.submit_price_unsigned_with_signed_payload p g) =
      (verify_example p g ≡ true) × (p.block_number ≤ s.block_number)

  abbrev Endures : RuntimeState AccountId → Submitted (RuntimeCall Public Signature) → Type 0
  Endures s (signed_tx c) = IsSignedCall c
  Endures s (unsigned_tx (template_module c)) =
      IsTaken sys verify_ocw verify_example s (unsigned_tx (template_module c))
  Endures s (unsigned_tx (ocw_demo c)) =
      IsTaken sys verify_ocw verify_example s (unsigned_tx (ocw_demo c))
  Endures s (unsigned_tx (ocw_example c)) = NotAhead s.example c

  NotAhead-mono :
      (s t : ExampleTypes.State AccountId)
      → s.block_number ≤ t.block_number
      → (c : ExampleTypes.Call Public Signature) → NotAhead s c
      → NotAhead t c
  NotAhead-mono s t later (ExampleTypes.Call.submit_price price) h = h
  NotAhead-mono s t later (ExampleTypes.Call.submit_price_unsigned b price) h = omega (arith, h)
  NotAhead-mono s t later (ExampleTypes.Call.submit_price_unsigned_with_signed_payload p g) h =
      (h.0, omega (arith, h.1))

  Endures-mono :
      (s t : RuntimeState AccountId)
      → s.example.block_number ≤ t.example.block_number
      → (c : Submitted (RuntimeCall Public Signature)) → Endures s c
      → Endures t c
  unfolding validate_unsigned
  Endures-mono s t later (signed_tx c) h = h
  Endures-mono s t later (unsigned_tx (template_module c)) h = h
  Endures-mono s t later (unsigned_tx (ocw_demo c)) h = h
  Endures-mono s t later (unsigned_tx (ocw_example c)) h =
      NotAhead-mono s.example t.example later c h

  acceptable-NotAhead :
      (s : ExampleTypes.State AccountId) (c : ExampleTypes.Call Public Signature)
      → IsAcceptable example_config verify_example s c
      → NotAhead s c
  acceptable-NotAhead s (ExampleTypes.Call.submit_price price) h = h
  acceptable-NotAhead s (ExampleTypes.Call.submit_price_unsigned b price) h = h.1
  acceptable-NotAhead s (ExampleTypes.Call.submit_price_unsigned_with_signed_payload p g)
        (good, due, now) =
      (good, now)

  IsTaken-Endures :
      (s : RuntimeState AccountId) (c : Submitted (RuntimeCall Public Signature))
      → IsTaken sys verify_ocw verify_example s c
      → Endures s c
  IsTaken-Endures s (signed_tx c) h = h
  IsTaken-Endures s (unsigned_tx (template_module c)) h = h
  IsTaken-Endures s (unsigned_tx (ocw_demo c)) h = h
  IsTaken-Endures s (unsigned_tx (ocw_example c)) h =
      acceptable-NotAhead s.example c (acceptable s c h)

  Endures-IsTimely :
      (s : RuntimeState AccountId) (c : Submitted (RuntimeCall Public Signature))
      → Endures s c
      → IsTimely s c
  unfolding ExampleValidity.validate_unsigned ExampleValidity.validate_transaction_parameters
  Endures-IsTimely s (signed_tx c) h = h
  Endures-IsTimely s (unsigned_tx (template_module c)) h = inl h
  Endures-IsTimely s (unsigned_tx (ocw_demo c)) h = inl h
  Endures-IsTimely s (unsigned_tx (ocw_example (ExampleTypes.Call.submit_price price))) h = absurd h
  Endures-IsTimely s (unsigned_tx (ocw_example (ExampleTypes.Call.submit_price_unsigned b price)))
        h =
      passed s (ExampleTypes.Call.submit_price_unsigned b price) (ground arith)
  Endures-IsTimely s
        (unsigned_tx
          (ocw_example (ExampleTypes.Call.submit_price_unsigned_with_signed_payload p g)))
        h =
      passed s (ExampleTypes.Call.submit_price_unsigned_with_signed_payload p g) (ground arith)

  module _ (env : Environment Public Signature) where
    open env use {host}
    open host use {World}

    module _ (pool : World → List (Submitted (RuntimeCall Public Signature))) where
      -- `Reached s w t u`: the node starts with the chain in state `s` and its workers in the world
      -- `w`, and comes to `t` and `u`. The pool is seen as far as this node's workers have filled it.
      pub data Reached (s : RuntimeState AccountId) (w : World)
          : RuntimeState AccountId → World → Type 0 where
        begun : Reached s w s w
        -- The chain moves on. The pool only loses calls: some are in a block, others were dropped.
        imported :
            {t t' : RuntimeState AccountId} {u u' : World} {l : List (RuntimeCall Public Signature)}
            → Reached s w t u
            → Run sys verify_ocw verify_example t l t'
            → Drops (pool u') (pool u)
            → Reached s w t' u'
        -- A round ends that was started for a block of the chain, when this was in state `read`.
        round :
            {t read : RuntimeState AccountId} {u u' : World}
            {l : List (RuntimeCall Public Signature)} (order : List Hook) (b : ℕ)
            → Reached s w t u
            → Run sys verify_ocw verify_example read l t
            → b ≤ read.example.block_number
            → offchain_worker env order b read u ≡ some u'
            → Reached s w t u'

      module _ (laws : EnvironmentLaws env verify_ocw verify_example pool) where
        Reached-Endures :
            {s : RuntimeState AccountId} {w : World} {t : RuntimeState AccountId} {u : World}
            → Reached s w t u
            → pool w ≡ []
            → All (Endures t) (pool u)
        Reached-Endures begun empty = rw empty tt
        Reached-Endures (imported {t = t} {t' = t'} {u = u} {u' = u'} r run drops) empty =
            All-Drops (Endures t') drops
              (All-map (pool u) (Endures-mono t t' (later run)) (Reached-Endures r empty))
        Reached-Endures (round {t = t} {read = read} {u = u} {u' = u'} order b r run now e) empty =
            let (new, grown, taken) =
              offchain_worker-Adds sys env verify_ocw verify_example pool laws read b now order u u'
                e in
            rw grown (
              All-append (Endures t) new (pool u)
                (All-map new (λ c h. Endures-mono read t (later run) c (IsTaken-Endures read c h))
                  taken)
                (Reached-Endures r empty))

        -- While blocks are imported and the workers run, the pool holds of theirs only transactions
        -- that suit the state that the chain has come to: those submitted signed have calls for
        -- signed transactions, and those submitted unsigned the runtime's validation takes or refuses
        -- as stale. It never refuses one of these for a block in the future, for its signature or as
        -- no unsigned call. The pool is empty in the beginning, each round is for a block not after
        -- the current one of the state that it reads, and the node and the libraries obey their laws.
        pub Reached-IsTimely :
            {s : RuntimeState AccountId} {w : World} {t : RuntimeState AccountId} {u : World}
            → Reached s w t u
            → pool w ≡ []
            → All (IsTimely t) (pool u)
        Reached-IsTimely {t = t} {u = u} r empty =
            All-map (pool u) (Endures-IsTimely t) (Reached-Endures r empty)
