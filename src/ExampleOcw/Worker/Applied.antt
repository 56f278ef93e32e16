-- ===== src/ExampleOcw/Worker/Applied.antt =====
-- From a run of the worker to the chain: what becomes of the transactions that it submits.
use substrate_node_template.Common.{ℕ, ◌≤◌, ◌≡◌, refl, Bool, some, arith, Result, ok, List, String}
use substrate_node_template.Frame.{System, IsLawful, ValidTransaction, done}
use substrate_node_template.Offchain.{
  Host, Submitter, Submitted, signed_tx, unsigned_tx, map_submitted,
}
use substrate_node_template.Offchain.Pool.{Image, Adds, Adds-map, HostLaws, SubmitterLaws}
use substrate_node_template.ExampleOcw.Types.{Config, State, Call, PricePayload, TransactionType}
use substrate_node_template.ExampleOcw.Prices.Inserted.{with_price}
use substrate_node_template.ExampleOcw.Calls.{dispatch}
use substrate_node_template.ExampleOcw.Calls.Effects.{price_of, dispatch-outcome, added_unsigned}
use substrate_node_template.ExampleOcw.Prices.Bounds.{added}
use substrate_node_template.ExampleOcw.Parse.{LiteJson}
use substrate_node_template.ExampleOcw.Validity.{validate_unsigned}
use substrate_node_template.ExampleOcw.Validity.Window.{IsWelcome, validate_unsigned_iff}
use substrate_node_template.ExampleOcw.Chain.{Run}
use substrate_node_template.ExampleOcw.Chain.Pending.{Run-IsWelcome}
use substrate_node_template.ExampleOcw.Worker.{send}
use substrate_node_template.ExampleOcw.Worker.Accepted.{send-Adds}

module _ (sys : System) (config : Config) {Public Signature : Type 0}
    (verify : PricePayload Public → Signature → Bool) (signer nobody : System.Origin sys) where
  open sys use {AccountId}

  -- The transaction goes through in state `t`: a signed one is applied with the origin `signer`, an
  -- unsigned one is valid and is applied with the origin `nobody`; its price is added to the list.
  abbrev pub GoesThrough : State AccountId → Submitted (Call Public Signature) → Type 0
  GoesThrough t (signed_tx c) =
      (u : State AccountId) × (dispatch sys config c signer t ≡ done u)
      × (u.prices ≡ with_price t.prices (price_of c))
  GoesThrough t (unsigned_tx c) =
      (v : ValidTransaction ℕ) × (u : State AccountId) × (validate_unsigned config verify t c
        ≡ ok v)
      × (dispatch sys config c nobody t ≡ done u)
      × (u.prices ≡ with_price t.prices (price_of c))

  welcome_goes :
      (who : AccountId)
      → sys.ensure_signed signer ≡ ok who
      → sys.ensure_none nobody ≡ ok tt
      → (t : State AccountId) (c : Submitted (Call Public Signature)) → IsWelcome config verify t c
      → GoesThrough t c
  welcome_goes who signs unsigned t (signed_tx (Call.submit_price price)) h = (
    added who price t,
    ground (
      arith,
      dispatch-outcome sys config {Public = Public} {Signature = Signature}
          (Call.submit_price price) signer t,
    ),
    refl,
  )
  welcome_goes who signs unsigned t (signed_tx (Call.submit_price_unsigned b price)) h = absurd h
  welcome_goes who signs unsigned t (signed_tx (Call.submit_price_unsigned_with_signed_payload p g))
        h =
      absurd h
  welcome_goes who signs unsigned t (unsigned_tx (Call.submit_price price)) h = absurd h
  welcome_goes who signs unsigned t (unsigned_tx (Call.submit_price_unsigned b price)) h =
      let c : Call Public Signature = Call.submit_price_unsigned b price in
      let (v, valid) = (validate_unsigned_iff config verify t c).1 h in
      (
        v,
        added_unsigned sys config price t,
        valid,
        ground (arith, dispatch-outcome sys config c nobody t),
        refl,
      )
  welcome_goes who signs unsigned t
        (unsigned_tx (Call.submit_price_unsigned_with_signed_payload p g)) h =
      let c : Call Public Signature = Call.submit_price_unsigned_with_signed_payload p g in
      let (v, valid) = (validate_unsigned_iff config verify t c).1 h in
      (
        v,
        added_unsigned sys config p.price t,
        valid,
        ground (arith, dispatch-outcome sys config c nobody t),
        refl,
      )

  -- A run of the worker reads the state `s`, for a block not after its current one, and the chain
  -- moves on to `t` without accepting an unsigned transaction. Then every transaction that the run
  -- adds to the pool goes through in `t`: one that it submitted signed with the origin of a signer; one
  -- that it submitted unsigned is valid there and goes through with the origin of an unsigned
  -- transaction; and the price of the call is added to the list. If the host and the signer obey their laws and no origin is both signed and
  -- unsigned.
  pub send-GoesThrough :
      (host : Host)
      (submitter : Submitter
        (Host.World host)
        Public
        Signature
        (Call Public Signature)
        (PricePayload Public))
      {C : Type 0} (embed : Call Public Signature → C) (pool : Host.World host → List (Submitted C))
      (json : LiteJson) (s t : State AccountId) (block_number : ℕ) (kind : TransactionType)
      (w w' : Host.World host) (r : Result String (Unit {0})) (who : AccountId)
      → IsLawful sys
      → HostLaws host pool
      → SubmitterLaws submitter verify embed pool
      → sys.ensure_signed signer ≡ ok who
      → sys.ensure_none nobody ≡ ok tt
      → block_number ≤ s.block_number
      → send host json submitter kind block_number s w ≡ some (r, w')
      → Run sys config verify s 0 t
      → Adds pool (Image (map_submitted embed) (GoesThrough t)) w w'
  send-GoesThrough host submitter embed pool json s t b kind w w' r who law host_laws laws signs
        unsigned now e run =
      Adds-map pool
        (λ c h. (
          h.0,
          h.1,
          welcome_goes who signs unsigned t h.0 (Run-IsWelcome sys config verify law run h.0 h.2),
        ))
        refl refl
        (send-Adds verify host submitter embed pool host_laws laws json config s b now kind w w' r
          e)
