-- ===== src/Ocw/Worker/Accepted.antt =====
-- What a run of the worker of pallet-ocw puts into the pool, and its `validate_unsigned`.
use substrate_node_template.Common.{
  ℕ, ◌≡◌, refl, Bool, true, Option, some, List, arith, Result, ok, ◌==◌, Bool-cases, inl, inr,
}
use substrate_node_template.Frame.{ValidTransaction}
use substrate_node_template.Offchain.{
  Host, Submitter, Submitted, signed_tx, unsigned_tx, map_submitted,
}
use substrate_node_template.Offchain.Pool.{
  Image, Adds, Adds-Keeps, Adds-map, HostLaws, SubmitterLaws,
}
use substrate_node_template.Ocw.Types.{State, Call, Payload, HackerNewsInfo, Error}
use substrate_node_template.Ocw.Calls.Effects.{number_of}
use substrate_node_template.Ocw.Validity.{validate_unsigned, valid_tx}
use substrate_node_template.Ocw.Fetch.{InfoStorage}
use substrate_node_template.Ocw.Fetch.Kept.{StorageLaws, fetch_remote_info-Keeps}
use substrate_node_template.Ocw.Worker.{
  modu, number_of_block, offchain_signed_tx, offchain_unsigned_tx,
  offchain_unsigned_tx_signed_payload, worker_result,
}

module _ {Public Signature : Type 0} (verify : Payload Public → Signature → Bool) where
  -- A transaction with the given number: a signed one with the call for it, or an unsigned one that
  -- passes `validate_unsigned`.
  abbrev pub Passes : ℕ → Submitted (Call Public Signature) → Type 0
  Passes n (signed_tx (Call.submit_number_signed number)) = number ≡ n
  Passes n (signed_tx (Call.submit_number_unsigned number)) = ⊥
  Passes n (signed_tx (Call.submit_number_unsigned_with_signed_payload payload signature)) = ⊥
  Passes n (unsigned_tx c) =
      (number_of c ≡ n) × (v : ValidTransaction _) × (validate_unsigned verify c ≡ ok v)

  payload-Passes :
      (payload : Payload Public) (signature : Signature)
      → verify payload signature ≡ true
      → Passes payload.number
          (unsigned_tx (Call.submit_number_unsigned_with_signed_payload payload signature))
  unfolding validate_unsigned
  payload-Passes payload signature good =
      (refl, valid_tx "submit_number_unsigned_with_signed_payload", rw good)

  unsigned-Passes : (n : ℕ) → Passes n (unsigned_tx (Call.submit_number_unsigned n))
  unfolding validate_unsigned
  unsigned-Passes n = (refl, valid_tx "submit_number_unsigned", refl)

  module _ (host : Host) (storage : InfoStorage (Host.World host))
      (submitter : Submitter
        (Host.World host)
        Public
        Signature
        (Call Public Signature)
        (Payload Public))
      {C : Type 0} (embed : Call Public Signature → C) (pool : Host.World host → List (Submitted C))
      (host_laws : HostLaws host pool) (storage_laws : StorageLaws storage pool)
      (laws : SubmitterLaws submitter verify embed pool)
      (from_json : List ℕ → Option HackerNewsInfo) where
    open host use {World}
    open submitter use {account_public}
    open laws use {signed_any_adds, any_adds, submit_adds}

    signed_tx-Adds :
        (b : ℕ) (w w' : World) (r : Result Error (Unit {0}))
        → offchain_signed_tx host from_json storage submitter b w ≡ some (r, w')
        → Adds pool (Image (map_submitted embed) (Passes (number_of_block b))) w w'
    unfolding offchain_signed_tx
    signed_tx-Adds b w w' r e =
        Adds-map pool
          (λ c h. (signed_tx (Call.submit_number_signed (number_of_block b)), h.1, refl)) refl
          (ground arith) (signed_any_adds (λ _. Call.submit_number_signed (number_of_block b)) w)

    unsigned_tx-Adds :
        (b : ℕ) (w w' : World) (r : Result Error (Unit {0}))
        → offchain_unsigned_tx host from_json storage submitter b w ≡ some (r, w')
        → Adds pool (Image (map_submitted embed) (Passes (number_of_block b))) w w'
    unfolding offchain_unsigned_tx
    unsigned_tx-Adds b w w' r e =
        Adds-map pool
          (λ c h. (
            unsigned_tx (Call.submit_number_unsigned (number_of_block b)),
            h,
            unsigned-Passes (number_of_block b),
          ))
          refl (ground arith) (submit_adds (Call.submit_number_unsigned (number_of_block b)) w)

    payload_tx-Adds :
        (b : ℕ) (w w' : World) (r : Result Error (Unit {0}))
        → offchain_unsigned_tx_signed_payload host from_json storage submitter b w ≡ some (r, w')
        → Adds pool (Image (map_submitted embed) (Passes (number_of_block b))) w w'
    unfolding offchain_unsigned_tx_signed_payload
    payload_tx-Adds b w w' r e =
        Adds-map pool (λ c h. (unsigned_tx _, h.3, payload-Passes _ h.1 h.2)) refl (ground arith)
          (any_adds (λ acct. record { number = number_of_block b; public = account_public acct })
            Call.submit_number_unsigned_with_signed_payload w)

    pub worker_result-Adds :
        {AccountId : Type 0} (usize_values b : ℕ) (s : State AccountId) (w w' : World)
        (r : Result Error (Unit {0}))
        → worker_result host from_json storage submitter usize_values b s w ≡ some (r, w')
        → Adds pool (Image (map_submitted embed) (Passes (number_of_block b))) w w'
    unfolding worker_result
    worker_result-Adds usize_values b s w w' r e = elim (Bool-cases (modu usize_values b == 0)) [
      | inl zeroth ↦ signed_tx-Adds b w w' r (rw (worker_result, zeroth) at e)
      | inr not_0 ↦ elim (Bool-cases (modu usize_values b == 1)) [
        | inl first ↦ unsigned_tx-Adds b w w' r (rw (worker_result, not_0, first) at e)
        | inr not_1 ↦ elim (Bool-cases (modu usize_values b == 2)) [
          | inl second ↦ payload_tx-Adds b w w' r (rw (worker_result, not_0, not_1, second) at e)
          | inr not_2 ↦ elim (Bool-cases (modu usize_values b == 3)) [
            | inl third ↦ Adds-Keeps pool w w' (
                fetch_remote_info-Keeps host pool host_laws from_json storage storage_laws s w w' r
                  (rw (worker_result, not_0, not_1, not_2, third) at e))
            | inr not_3 ↦
                Adds-Keeps pool w w'
                  (ground (arith, rw (worker_result, not_0, not_1, not_2, not_3) at e))
          ]
        ]
      ]
    ]
