-- ===== src/Ocw/Worker/Jobs.antt =====
-- Which job a block gets, and how the jobs end.
use substrate_node_template.Common.{
  ℕ, ◌+◌, ◌-◌, ◌%◌, ◌≤◌, ◌<◌, ◌≡◌, ◌≢◌, ◌↔◌, Option, none, some, List, arith, err, le→ltb,
}
use native.Mathlib.Decide.{dec_lt}
use substrate_node_template.Offchain.{Host, Submitter}
use substrate_node_template.Ocw.Types.{State, Call, Payload, HackerNewsInfo, unknown_offchain_mux}
use substrate_node_template.Ocw.Fetch.{InfoStorage}
use substrate_node_template.Ocw.Fetch.Cache.{fetch_remote_info-ne-none, fetch_remote_info_errors}
use substrate_node_template.Ocw.Worker.{
  modu, offchain_signed_tx, offchain_unsigned_tx, offchain_unsigned_tx_signed_payload,
  worker_result,
}

modu-eq : (usize_values b : ℕ) → b < usize_values → modu usize_values b ≡ b % 4
unfolding modu
modu-eq usize_values b fits = ground arith

-- The jobs take turns: of any four blocks in a row whose numbers fit `usize`, some block gets a given
-- job, also where the numbers exceed u32.
pub modu_turns :
    (usize_values b job : ℕ)
    → b + 3 < usize_values
    → job < 4
    → (k : ℕ) × (k < 4) × (modu usize_values (b + k) ≡ job)
modu_turns usize_values b job fits known =
    let k : ℕ = (job + 4 - b % 4) % 4 in
    let small : k < 4 = omega arith in
    (k, small, omega (arith, modu-eq usize_values (b + k) (omega arith)))

modu-lt : (usize_values b : ℕ) → b < usize_values → modu usize_values b < 4
unfolding modu
modu-lt usize_values b fits = ground arith

module _ {Public Signature AccountId : Type 0} (host : Host)
    (from_json : List ℕ → Option HackerNewsInfo) (storage : InfoStorage (Host.World host))
    (submitter : Submitter
      (Host.World host)
      Public
      Signature
      (Call Public Signature)
      (Payload Public)) where
  open host use {World}

  -- A run never panics.
  worker_result-ne-none :
      (usize_values b : ℕ) (s : State AccountId) (w : World)
      → worker_result host from_json storage submitter usize_values b s w ≢ none
  unfolding worker_result offchain_signed_tx offchain_unsigned_tx
      offchain_unsigned_tx_signed_payload
  worker_result-ne-none usize_values b s w h =
      ground (arith, fetch_remote_info-ne-none host storage from_json s w)

  known_job :
      (usize_values b : ℕ) (s : State AccountId) (w w' : World)
      → b < usize_values
      → worker_result host from_json storage submitter usize_values b s w
        ≢ some (err unknown_offchain_mux, w')
  unfolding worker_result offchain_signed_tx offchain_unsigned_tx
      offchain_unsigned_tx_signed_payload
  known_job usize_values b s w w' fits h = ground (
    arith,
    modu-lt usize_values b fits,
    fetch_remote_info_errors host storage from_json s w w' unknown_offchain_mux,
  )

  unknown_job :
      (usize_values b : ℕ) (s : State AccountId) (w : World)
      → usize_values ≤ b
      → worker_result host from_json storage submitter usize_values b s w
        ≡ some (err unknown_offchain_mux, w)
  unfolding worker_result modu
  unknown_job usize_values b s w big = rw (le→ltb _ _ big) (ground arith)

  -- A run of the worker never panics, and it ends with the error of an unknown job exactly for a
  -- block number that does not fit `usize`.
  pub unknown_mux_iff :
      (usize_values b : ℕ) (s : State AccountId) (w : World)
      → (worker_result host from_json storage submitter usize_values b s w ≢ none)
        × (((w' : World) × (worker_result host from_json storage submitter usize_values b s w
                ≡ some (err unknown_offchain_mux, w')))
            ↔ (usize_values ≤ b))
  unknown_mux_iff usize_values b s w = (
    worker_result-ne-none usize_values b s w,
    (
      (λ h. elim (dec_lt b usize_values) [
        | yes fits ↦ absurd (known_job usize_values b s w h.0 fits h.1)
        | no big ↦ omega arith
      ]),
      (λ big. (w, unknown_job usize_values b s w big)),
    ),
  )
