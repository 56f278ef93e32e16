-- ===== src/Tests/Round.antt =====
-- The off-chain workers in the runtime: runs, and the theorems at concrete inputs.
use substrate_node_template.Common.{
  ℕ, ◌≡◌, ◌↔◌, ◌⊎◌, refl, none, some, List, [], ◌∷◌, ok, arith, All, u64_values, from_utf8,
}
use substrate_node_template.Frame.{ValidTransaction}
use substrate_node_template.Offchain.{Submitted, unsigned_tx}
use substrate_node_template.Offchain.Pool.{Adds}
use substrate_node_template.Ocw.Types as OcwTypes
use substrate_node_template.Ocw.Types.{Payload}
use substrate_node_template.Ocw.Fetch.{InfoStorage}
use substrate_node_template.Ocw.Worker as OcwWorker
use substrate_node_template.ExampleOcw.Types as ExampleTypes
use substrate_node_template.ExampleOcw.Types.{PricePayload}
use substrate_node_template.ExampleOcw.Parse.{parse_price, usd_number, to_cents}
use substrate_node_template.ExampleOcw.Fetch.{fetch_price}
use substrate_node_template.ExampleOcw.Validity as ExampleValidity
use substrate_node_template.ExampleOcw.Worker as ExampleWorker
use substrate_node_template.Runtime.Pallets.{
  RuntimeCall, ocw_demo, ocw_example, RuntimeTag, validate_unsigned,
}
use substrate_node_template.Runtime.Chain.{set_block_number, start, next_block}
use substrate_node_template.Runtime.Chain.Oracle.{oracle_calls}
use substrate_node_template.Runtime.Chain.Reopens.{oracle_reopens}
use substrate_node_template.Runtime.Chain.Replay.{IsOcwCall, unsigned_valid_iff}
use substrate_node_template.Runtime.Offchain.{
  Environment, Hook, ocw_demo_hook, ocw_example_hook, run_hook, offchain_worker,
}
use substrate_node_template.Runtime.Offchain.Taken.{IsTaken, EnvironmentLaws}
use substrate_node_template.Runtime.Offchain.Round.{offchain_worker-Adds}
use substrate_node_template.Runtime.Offchain.Waiting.{
  IsTimely, nothing_left, gone, stays, Reached, begun, imported, round, Reached-IsTimely,
}
use substrate_node_template.Tests.Mock.{
  World, mock_system, mock_system-IsLawful, mock_host, mock_json, mock_storage, mock_submitter,
  mock_submitter-laws, mock_mutate_keeps, mock_serde,
}
use substrate_node_template.Tests.OracleWorker.{usd_is}
use substrate_node_template.Tests.Chain.{
  verify_number, verify_price, genesis, priced, submits_price, submits_number, chain,
}

abbrev C : Type 0
C = RuntimeCall ℕ ℕ

abbrev W : Type 0
W = World C ℕ

-- A local storage that is always empty, under a lock that is always free.
abbrev forgetful : InfoStorage W
forgetful = record {
  RetrievalError = Unit {0};
  Guard = Unit {0};
  get = λ key w. ok none;
  set = λ key i w. w;
  try_lock = λ key b n m w. (some tt, w);
  release = λ g w. w;
}

-- Account 7 signs for both pallets with its public key.
abbrev env : Environment ℕ ℕ
env = record {
  host = mock_host C ℕ 200 (b'{' ∷ b'}' ∷ []);
  json = mock_json (usd_is 155 23 2);
  serde = mock_serde (λ name. none);
  info_storage = forgetful;
  price_storage = mock_storage;
  ocw_submitter = mock_submitter ocw_demo (λ p. Payload.public p);
  example_submitter = mock_submitter ocw_example (λ p. PricePayload.public p);
  usize_values = u64_values;
}

abbrev quiet : W
quiet = record { pool = []; value = none }

abbrev order : List Hook
order = ocw_example_hook ∷ ocw_demo_hook ∷ []

-- Block 1 sends a price for any account and a plain number.
abbrev price_call : C
price_call = ocw_example (
    ExampleTypes.Call.submit_price_unsigned_with_signed_payload
      (record { block_number = 1; price = 15523; public = 7 }) 7)

abbrev number_call : C
number_call = ocw_demo (OcwTypes.Call.submit_number_unsigned 1)

abbrev after_round : W
after_round = record {
  pool = unsigned_tx number_call ∷ unsigned_tx price_call ∷ [];
  value = some 1;
}

round_runs : offchain_worker env order 1 genesis quiet ≡ some after_round
unfolding offchain_worker run_hook OcwWorker.offchain_worker OcwWorker.worker_result OcwWorker.modu
    OcwWorker.offchain_unsigned_tx OcwWorker.number_of_block ExampleWorker.offchain_worker
    ExampleWorker.choose_transaction_type ExampleWorker.send ExampleWorker.fetched fetch_price
    parse_price usd_number to_cents from_utf8
round_runs = refl

abbrev pool_of : W → List (Submitted C)
pool_of w = World.pool w

laws : EnvironmentLaws env verify_number verify_price pool_of
laws = record {
  host_laws = record {
    timestamp_keeps = λ w. refl;
    send_keeps = λ url d w. refl;
    wait_keeps = λ p d w. refl;
    body_keeps = λ r w. refl;
  };
  info_laws = record {
    lock_keeps = λ key b n m w. refl;
    set_keeps = λ key i w. refl;
    release_keeps = λ g w. refl;
  };
  mutate_keeps = mock_mutate_keeps;
  ocw_laws = mock_submitter-laws ocw_demo (λ p. Payload.public p);
  example_laws = mock_submitter-laws ocw_example (λ p. PricePayload.public p);
}

offchain_worker-Adds_example :
    Adds pool_of (IsTaken mock_system verify_number verify_price genesis) quiet after_round
offchain_worker-Adds_example =
    offchain_worker-Adds mock_system env verify_number verify_price pool_of laws genesis 1
      (omega arith) order quiet after_round round_runs

-- Blocks are imported after the round; the number is gone from the pool, and the price of another
-- node has made this node's stale.
abbrev left : W
left = record { pool = unsigned_tx price_call ∷ []; value = some 1 }

waits :
    Reached mock_system verify_number verify_price env pool_of genesis quiet
      (set_block_number 2 priced)
      left
waits =
    imported (round order 1 begun start (omega arith) round_runs) chain (gone (stays nothing_left))

Reached-IsTimely_example :
    All (IsTimely mock_system verify_number verify_price (set_block_number 2 priced)) (pool_of left)
Reached-IsTimely_example =
    Reached-IsTimely mock_system verify_number verify_price env pool_of laws waits refl

-- The call that was accepted on the chain, after it.
unsigned_valid_iff_example :
    ((v : ValidTransaction RuntimeTag) × (validate_unsigned mock_system verify_number verify_price
          (set_block_number 2 priced)
          submits_price
        ≡ ok v))
    ↔ (IsOcwCall submits_price ⊎ (oracle_calls (submits_price ∷ submits_number ∷ []) ≡ 0))
unfolding validate_unsigned ExampleValidity.validate_unsigned
unsigned_valid_iff_example =
    unsigned_valid_iff mock_system verify_number verify_price mock_system-IsLawful submits_price
      (omega arith) refl chain

-- A price for block 6, at block 7: the chain was at block 2, and closed until block 4.
oracle_reopens_example :
    (v : ValidTransaction RuntimeTag) × (validate_unsigned mock_system verify_number verify_price
        (set_block_number 7 (set_block_number 2 priced))
        (ocw_example (ExampleTypes.Call.submit_price_unsigned 6 99))
      ≡ ok v)
oracle_reopens_example =
    oracle_reopens mock_system verify_number verify_price mock_system-IsLawful 6
      (ExampleTypes.Call.submit_price_unsigned 6 99) chain (next_block 7 start (omega arith))
      (omega arith) (omega arith) refl (omega arith) (omega arith) refl
