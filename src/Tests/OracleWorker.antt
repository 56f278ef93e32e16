-- ===== src/Tests/OracleWorker.antt =====
-- The off-chain worker of pallet-example-offchain-worker: runs, and the theorems at concrete inputs.
use substrate_node_template.Common.{
  ℕ, ◌≡◌, refl, Bool, Option, none, some, List, [], ◌∷◌, ok, arith, pos, from_utf8,
}
use substrate_node_template.Offchain.{Host, Submitter}
use substrate_node_template.Runtime.{example_config}
use substrate_node_template.ExampleOcw.Types.{State, Call, PricePayload, unsigned_for_any}
use substrate_node_template.ExampleOcw.Parse.{usd, parse_price, to_cents, usd_number, LiteJson}
use substrate_node_template.ExampleOcw.Fetch.{fetch_price}
use substrate_node_template.ExampleOcw.Validity.Window.{IsWelcome}
use substrate_node_template.ExampleOcw.Worker.{send, fetched, choose_transaction_type}
use substrate_node_template.ExampleOcw.Worker.Spacing.{senders, Spaced, senders-Spaced}
use substrate_node_template.Offchain.{Submitted, unsigned_tx, map_submitted}
use substrate_node_template.Offchain.Pool.{Image, Adds, HostLaws, SubmitterLaws}
use substrate_node_template.ExampleOcw.Worker.Accepted.{send-Adds}
use substrate_node_template.ExampleOcw.Chain.{next_block, start}
use substrate_node_template.ExampleOcw.Worker.Applied.{GoesThrough, send-GoesThrough}
use substrate_node_template.Tests.Mock.{
  mock_system, mock_system-IsLawful, mock_submitter-laws, mock_verify, World, Document, object,
  mock_json, mock_host, mock_storage, mock_stored, mock_atomic, mock_submitter,
}

abbrev pub C : Type 0
C = Call ℕ ℕ

abbrev verify : PricePayload ℕ → ℕ → Bool
verify = mock_verify (λ p. PricePayload.public p)

abbrev pub usd_is : ℕ → ℕ → ℕ → Document
usd_is whole digits places =
    object ((usd, record { whole = pos whole; digits = digits; places = places }) ∷ [])

-- A response with status 200 whose body is the text "{}".
abbrev pub host : Host
host = mock_host C ℕ 200 (b'{' ∷ b'}' ∷ [])

abbrev pub submitter : Submitter (World C ℕ) ℕ ℕ C (PricePayload ℕ)
submitter = mock_submitter (λ c. c) (λ p. PricePayload.public p)

abbrev pub quiet : World C ℕ
quiet = record { pool = []; value = none }

-- parse_price_works: 6536.92 and 6536.924565
parsed : (ds places : ℕ) → Option (Option ℕ)
unfolding parse_price usd_number to_cents
parsed ds places = parse_price (mock_json (usd_is 6536 ds places)) []

parses :
    (parsed 92 2 ≡ some (some 653692))
    × (parsed 924565 6 ≡ some (some 653692))
    × (parsed 0 0 ≡ some (some 653600))
unfolding parsed
parses = (refl, refl, refl)

-- 6536.9 comes out as 6536.09.
parses_one_digit : parsed 9 1 ≡ some (some 653609)
unfolding parsed
parses_one_digit = refl

fetch_runs : fetch_price host (mock_json (usd_is 155 23 2)) quiet ≡ some (ok 15523, quiet)
unfolding fetch_price parse_price usd_number to_cents from_utf8
fetch_runs = refl

-- Runs for the blocks 5, 6, 7, 8 and 20 send at 5, 8 and 20.
sends : senders example_config mock_storage (5 ∷ 6 ∷ 7 ∷ 8 ∷ 20 ∷ []) quiet ≡ 5 ∷ 8 ∷ 20 ∷ []
unfolding senders choose_transaction_type
sends = refl

senders-Spaced_example :
    Spaced 3 (senders example_config mock_storage (5 ∷ 6 ∷ 7 ∷ 8 ∷ 20 ∷ []) quiet)
senders-Spaced_example =
    senders-Spaced example_config mock_storage mock_stored mock_atomic (5 ∷ 6 ∷ 7 ∷ 8 ∷ 20 ∷ [])
      quiet (omega arith)

abbrev pool_of : World C ℕ → List (Submitted C)
pool_of w = World.pool w

mock-HostLaws : HostLaws host pool_of
mock-HostLaws = record {
  timestamp_keeps = λ w. refl;
  send_keeps = λ url d w. refl;
  wait_keeps = λ p d w. refl;
  body_keeps = λ r w. refl;
}

mock_laws : SubmitterLaws submitter verify (λ c. c) pool_of
mock_laws = mock_submitter-laws (λ c. c) (λ p. PricePayload.public p)

abbrev json : LiteJson
json = mock_json (usd_is 155 23 2)

-- Unsigned transactions are accepted from block 4 on, and the chain is at block 5.
abbrev at_5 : State ℕ
at_5 = record { block_number = 5; prices = []; next_unsigned_at = 4; events = [] }

abbrev sent_payload : Call ℕ ℕ
sent_payload =
    Call.submit_price_unsigned_with_signed_payload
      (record { block_number = 5; price = 15523; public = 7 }) 7

sends_payload :
    send host json submitter unsigned_for_any 5 at_5 quiet
    ≡ some (ok tt, record { pool = unsigned_tx sent_payload ∷ []; value = none })
unfolding send fetched fetch_price parse_price usd_number to_cents from_utf8
sends_payload = refl

send-Adds_example :
    Adds pool_of
      (Image (map_submitted (λ c. c)) (IsWelcome example_config verify at_5))
      quiet
      (record { pool = unsigned_tx sent_payload ∷ []; value = none })
send-Adds_example =
    send-Adds verify host submitter (λ c. c) pool_of mock-HostLaws mock_laws json example_config
      at_5 5 (omega arith) unsigned_for_any quiet
      (record { pool = unsigned_tx sent_payload ∷ []; value = none }) (ok tt) sends_payload

-- Block 6 comes before the submitted transaction does; 9 signs, and nobody signs the others.
send-GoesThrough_example :
    Adds pool_of
      (Image (map_submitted (λ c. c)) (
        GoesThrough mock_system example_config verify
          (some 9)
          none
          (record at_5 { block_number = 6 })))
      quiet
      (record { pool = unsigned_tx sent_payload ∷ []; value = none })
send-GoesThrough_example =
    send-GoesThrough mock_system example_config verify (some 9) none host submitter (λ c. c) pool_of
      json at_5 (record at_5 { block_number = 6 }) 5 unsigned_for_any quiet
      (record { pool = unsigned_tx sent_payload ∷ []; value = none }) (ok tt) 9 mock_system-IsLawful
      mock-HostLaws mock_laws refl refl (omega arith) sends_payload
      (next_block 6 start (omega arith))
