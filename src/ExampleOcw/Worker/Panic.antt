-- ===== src/ExampleOcw/Worker/Panic.antt =====
-- That a run of the off-chain worker returns.
use substrate_node_template.Common.{
  ℕ, ◌≡◌, ◌≢◌, from_utf8, ◌<◌, none, some, inl, inr, List, arith, Option-cases,
}
use substrate_node_template.Offchain.{Host, MutableStorage, Submitter}
use substrate_node_template.ExampleOcw.Types.{
  Config, State, Call, PricePayload, TransactionType, signed, unsigned_for_any, unsigned_for_all,
  raw,
}
use substrate_node_template.ExampleOcw.Parse.{LiteJson, usd_number, parse_price}
use substrate_node_template.ExampleOcw.Parse.Panic.{parse_price_panics_iff}
use substrate_node_template.ExampleOcw.Fetch.{fetch_price, read_price}
use substrate_node_template.ExampleOcw.Worker.{
  choose_transaction_type, send, offchain_worker, fetched,
}

-- No response that the host receives has a body with a number under "USD" with 66 digits or more
-- after the point.
abbrev pub HasShortAnswers : Host → LiteJson → Type 0
HasShortAnswers host json =
    (response : Host.Response host) (w : Host.World host) (text : List ℕ)
    (num : LiteJson.NumberValue json)
    → from_utf8 (Host.body host response w).0 ≡ some text
    → usd_number json text ≡ some num
    → LiteJson.fraction_length json num < 66

module _ (host : Host) (json : LiteJson) (short : HasShortAnswers host json) where
  open host use {World, Response, body}

  read_price-ne-none : (response : Response) (w : World) → read_price host json response w ≢ none
  unfolding read_price
  read_price-ne-none response w h = elim (Option-cases (from_utf8 (body response w).0)) [
    | inl bad ↦ ground arith
    | inr (text, good) ↦ elim (Option-cases (parse_price json text)) [
      | inl panic ↦
          let (num, found, far) = (parse_price_panics_iff json text).0 panic in
          omega (arith, short response w text num good found)
      | inr (price, fine) ↦ ground arith
    ]
  ]

  fetch_price-ne-none : (w : World) → fetch_price host json w ≢ none
  unfolding fetch_price
  fetch_price-ne-none w h = grind (arith, read_price-ne-none)

  module _ {Public Signature : Type 0}
      (submitter : Submitter World Public Signature
        (Call Public Signature)
        (PricePayload Public)) where
    fetched-ne-none : (w : World) → fetched host json submitter w ≢ none
    unfolding fetched
    fetched-ne-none w h = ground (arith, fetch_price-ne-none w)

    send-ne-none :
        {AccountId : Type 0} (kind : TransactionType) (block_number : ℕ) (s : State AccountId)
        (w : World)
        → send host json submitter kind block_number s w ≢ none
    unfolding send
    send-ne-none signed b s w h = ground (arith, fetched-ne-none w)
    send-ne-none unsigned_for_any b s w h = ground (arith, fetched-ne-none w)
    send-ne-none unsigned_for_all b s w h = ground (arith, fetched-ne-none w)
    send-ne-none raw b s w h = ground (arith, fetched-ne-none w)
    send-ne-none TransactionType.none b s w h = ground arith

    -- If no response has a number under "USD" with 66 digits or more after the point, every run of the
    -- off-chain worker returns: none panics, whatever else the host answers.
    pub offchain_worker_returns :
        {AccountId : Type 0} (config : Config) (storage : MutableStorage World ℕ) (block_number : ℕ)
        (s : State AccountId) (w : World)
        → (w' : World) × (offchain_worker host json submitter config storage block_number s w
            ≡ some w')
    unfolding offchain_worker
    offchain_worker_returns config storage b s w =
        let (kind, w₁) = choose_transaction_type config storage b w in
        elim (Option-cases (send host json submitter kind b s w₁)) [
          | inl panic ↦ absurd (send-ne-none kind b s w₁ panic)
          | inr ((r, w'), e) ↦ (w', ground arith)
        ]
