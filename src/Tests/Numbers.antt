-- ===== src/Tests/Numbers.antt =====
-- pallet-ocw and pallet-template: runs, and the theorems at concrete inputs.
use substrate_node_template.Common.{
  ℕ, ◌+◌, ◌-◌, ◌≡◌, ◌≢◌, ◌≤◌, ◌↔◌, refl, Option, none, some, List, [], ◌∷◌, Result, ok, err, arith,
  from_utf8, u32_values,
}
use substrate_node_template.Frame.{failed, module_error, state_after}
use substrate_node_template.Offchain.{Host, Submitter}
use substrate_node_template.Ocw.Types.{
  State, Call, Payload, HackerNewsInfo, http_fetching_error, unknown_offchain_mux,
}
use substrate_node_template.Ocw.Fetch.{
  InfoStorage, fetch_from_remote, parse_info, fetch_n_parse, fetch_remote_info,
}
use substrate_node_template.Ocw.Fetch.Cache.{
  InfoLaws, IsFetchError, fetch_remote_info_once, fetch_remote_info_failed,
}
use substrate_node_template.Offchain.{Submitted}
use substrate_node_template.Ocw.Worker.Jobs.{unknown_mux_iff}
use substrate_node_template.Ocw.Worker.{worker_result}
use substrate_node_template.Template
use substrate_node_template.Template.Increments.{cause_error_counts, repeat_cause_error}
use substrate_node_template.Tests.Mock.{mock_system, World, mock_host, mock_submitter}

abbrev C : Type 0
C = Call ℕ ℕ

abbrev at_20 : State ℕ
at_20 = record { block_number = 20; numbers = []; events = [] }

abbrev W : Type 0
W = World C HackerNewsInfo

abbrev quiet : W
quiet = record { pool = []; value = none }

abbrev host : ℕ → Host
host status = mock_host C HackerNewsInfo status (b'{' ∷ b'}' ∷ [])

abbrev info : HackerNewsInfo
info = record { by = b'x' ∷ []; title = b'y' ∷ []; url = []; descendants = 3 }

abbrev from_json : List ℕ → Option HackerNewsInfo
from_json text = some info

-- A local storage whose lock is always free.
abbrev storage : InfoStorage W
storage = record {
  RetrievalError = Unit {0};
  Guard = Unit {0};
  get = λ key w. ok (World.value w);
  set = λ key i w. record w { value = some i };
  try_lock = λ key b n m w. (some tt, w);
  release = λ g w. w;
}

storage_laws : (status : ℕ) → InfoLaws (host status) storage
storage_laws status = record {
  get-set = λ i w. refl;
  get-release = λ g w. refl;
  get-try_lock = λ b n m w. refl;
  host_keeps = record {
    timestamp_keeps = λ w. refl;
    send_keeps = λ url d w. refl;
    wait_keeps = λ p d w. refl;
    body_keeps = λ r w. refl;
  };
}

fetches : fetch_n_parse (host 200) from_json quiet ≡ some (ok info, quiet)
unfolding fetch_n_parse fetch_from_remote parse_info from_utf8
fetches = refl

fetch_remote_info_once_example :
    (w' : W) × (fetch_remote_info (host 200) from_json storage at_20 quiet ≡ some (ok tt, w'))
    × (◌≡◌ {A = Result (Unit {0}) (Option HackerNewsInfo)} (ok (World.value w')) (ok (some info)))
    × (fetch_remote_info (host 200) from_json storage at_20 w' ≡ some (ok tt, w'))
fetch_remote_info_once_example =
    fetch_remote_info_once (host 200) storage from_json (storage_laws 200) at_20 at_20 quiet quiet
      quiet tt info (λ i e. ground arith) refl fetches

fails :
    fetch_remote_info (host 500) from_json storage at_20 quiet
    ≡ some (err http_fetching_error, quiet)
unfolding fetch_remote_info fetch_n_parse fetch_from_remote
fails = refl

fetch_remote_info_failed_example :
    (◌≡◌ {A = Result (Unit {0}) (Option HackerNewsInfo)} (ok none) (ok none))
    × IsFetchError (host 500) storage from_json http_fetching_error
fetch_remote_info_failed_example =
    fetch_remote_info_failed (host 500) storage from_json (storage_laws 500) at_20 quiet quiet
      http_fetching_error fails

abbrev submitter : Submitter W ℕ ℕ C (Payload ℕ)
submitter = mock_submitter (λ c. c) (λ p. Payload.public p)

unknown_mux_iff_example :
    (worker_result (host 200) from_json storage submitter u32_values (u32_values + 1) at_20 quiet
      ≢ none)
    × (((w' : W) × (worker_result
              (host 200)
              from_json
              storage
              submitter
              u32_values
              (u32_values + 1)
              at_20
              quiet
            ≡ some (err unknown_offchain_mux, w')))
        ↔ (u32_values ≤ u32_values + 1))
unknown_mux_iff_example =
    unknown_mux_iff (host 200) from_json storage submitter u32_values (u32_values + 1) at_20 quiet

-- Block 4002 sends an unsigned transaction with a signed payload.
abbrev sent_number : C
sent_number =
    Call.submit_number_unsigned_with_signed_payload (record { number = 4002; public = 7 }) 7

abbrev pool_of : W → List (Submitted C)
pool_of w = World.pool w

abbrev fresh : Template.State ℕ
fresh = record { something = none; events = [] }

cause_error_counts_example :
    (repeat_cause_error mock_system 2 (some 7) (
      state_after fresh
        (Template.do_something mock_system (some 7) (u32_values - 2) fresh))).something
    ≡ some (u32_values - 1)
cause_error_counts_example =
    cause_error_counts mock_system 2 (some 7) 7 fresh (u32_values - 2) refl (omega arith)

cause_error_fails :
    Template.cause_error mock_system (some 7) fresh
    ≡ failed (module_error Template.none_value) fresh
unfolding Template.cause_error
cause_error_fails = refl
