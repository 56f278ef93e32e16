-- ===== src/ExampleOcw/Chain/Pending.antt =====
-- Unsigned transactions that wait in the pool while the chain moves on: which are still accepted.
use native.Mathlib.Nat.{mod-eq_of_lt}
use native.Mathlib.Decide.{dec_lt}
use substrate_node_template.Common.{ℕ, ◌+◌, ◌<◌, ◌≤◌, ◌↔◌, ◌≡◌, ◌∙◌, refl, Bool, ok, err, arith}
use substrate_node_template.Frame.{System, IsLawful, ValidTransaction, InvalidTransaction, done}
use substrate_node_template.Offchain.{Submitted, signed_tx, unsigned_tx}
use substrate_node_template.ExampleOcw.Types.{Config, State, Call, PricePayload}
use substrate_node_template.ExampleOcw.Calls.{dispatch}
use substrate_node_template.ExampleOcw.Calls.Effects.{prices-dispatch}
use substrate_node_template.ExampleOcw.Validity.{validate_unsigned}
use substrate_node_template.ExampleOcw.Validity.Window.{
  IsAcceptable, IsWelcome, validate_unsigned_iff,
}
use substrate_node_template.ExampleOcw.Chain.{Run, start, next_block, signed, unsigned}
use substrate_node_template.ExampleOcw.Chain.Spacing.{
  next-signed, next-unsigned, block_mono, refused, next_grows,
}

module _ (sys : System) (config : Config) {Public Signature : Type 0}
    (verify : PricePayload Public → Signature → Bool) (law : IsLawful sys) where
  open sys use {Origin, AccountId}

  -- On a run that accepts no unsigned transaction the next accepted block stays.
  pub next_stays :
      {s t : State AccountId} {n : ℕ}
      → Run sys config verify s n t
      → n ≡ 0
      → t.next_unsigned_at ≡ s.next_unsigned_at
  next_stays start none = refl
  next_stays (next_block b r l) none = next_stays r none
  next_stays (signed {t = t} c origin who r w o e) none =
      next-signed sys config verify law c origin who t o e ∙ next_stays r none
  next_stays (unsigned c origin r w h e) none = absurd (ground arith)

  stays_acceptable :
      (s t : State AccountId) (c : Call Public Signature)
      → t.next_unsigned_at ≡ s.next_unsigned_at
      → s.block_number ≤ t.block_number
      → IsAcceptable config verify s c
      → IsAcceptable config verify t c
  stays_acceptable s t (Call.submit_price price) e l h = h
  stays_acceptable s t (Call.submit_price_unsigned b p) e l h = omega (arith, h)
  stays_acceptable s t (Call.submit_price_unsigned_with_signed_payload p g) e l h =
      (h.0, omega (arith, h), omega (arith, h))

  -- A call that the chain takes in state `s` it takes in every later state, as long as no unsigned
  -- transaction has been accepted in between, if no origin is both signed and unsigned.
  pub Run-IsWelcome :
      {s t : State AccountId}
      → Run sys config verify s 0 t
      → (c : Submitted (Call Public Signature)) → IsWelcome config verify s c
      → IsWelcome config verify t c
  Run-IsWelcome r (signed_tx (Call.submit_price price)) h = tt
  Run-IsWelcome r (signed_tx (Call.submit_price_unsigned b p)) h = h
  Run-IsWelcome r (signed_tx (Call.submit_price_unsigned_with_signed_payload p g)) h = h
  Run-IsWelcome {s} {t} r (unsigned_tx c) h =
      stays_acceptable s t c (next_stays r refl) (block_mono sys config verify r) h

  -- Once the chain has accepted an unsigned transaction, the next accepted block is an interval or
  -- more after the block at which it was before.
  next_passes :
      {s t : State AccountId} {n : ℕ}
      → Run sys config verify s n t
      → 0 < n
      → t.block_number + config.unsigned_interval < config.block_values
      → s.block_number + config.unsigned_interval ≤ t.next_unsigned_at
  next_passes start some fit = absurd (ground arith)
  next_passes (next_block b r l) some fit = next_passes r some (omega arith)
  next_passes (signed {t = t} c origin who r w o e) some fit =
      let (_, same) = prices-dispatch sys config c origin t e in
      ground (
        arith,
        next-signed sys config verify law c origin who t o e,
        next_passes r some (omega arith),
      )
  next_passes (unsigned {t = t} c origin r w h e) some fit =
      let (_, same) = prices-dispatch sys config c origin t e in
      let fit' : t.block_number + config.unsigned_interval < config.block_values = omega arith in
      let (_, moved) = next-unsigned sys config verify c origin t h e in
      omega (arith, moved ∙ mod-eq_of_lt fit', block_mono sys config verify r)

  outdated :
      (s u : State AccountId) (c : Call Public Signature)
      → s.block_number < u.next_unsigned_at
      → IsAcceptable config verify s c
      → ¬ IsAcceptable config verify u c
  outdated s u (Call.submit_price price) lt h k = h
  outdated s u (Call.submit_price_unsigned b p) lt h k = omega arith
  outdated s u (Call.submit_price_unsigned_with_signed_payload p g) lt h k = omega arith

  -- An unsigned call that is valid in state `s` is valid in a later one exactly if no unsigned
  -- transaction has been accepted in between.
  pub still_valid_iff :
      {s t : State AccountId} {n : ℕ} {v : ValidTransaction ℕ} (c : Call Public Signature)
      → 0 < config.unsigned_interval
      → t.block_number + config.unsigned_interval < config.block_values
      → validate_unsigned config verify s c ≡ ok v
      → Run sys config verify s n t
      → ((w : ValidTransaction ℕ) × (validate_unsigned config verify t c ≡ ok w)) ↔ (n ≡ 0)
  still_valid_iff {s} {t} {n} c pos fit h r =
      let fine = (validate_unsigned_iff config verify s c).0 (_, h) in
      (
        (λ k. elim (dec_lt 0 n) [
          | yes accepted ↦ absurd (
              outdated s t c (omega (arith, next_passes r accepted fit)) fine
                ((validate_unsigned_iff config verify t c).0 k))
          | no nothing ↦ omega arith
        ]),
        (λ nothing.
            (validate_unsigned_iff config verify t c).1 (
              stays_acceptable s t c (next_stays r nothing) (block_mono sys config verify r) fine)),
      )

  -- No unsigned transaction is accepted twice: whichever call is accepted in state `s` is refused in
  -- every later state of the chain, and so is every other one that was acceptable in `s`; if the
  -- interval is not 0, its sum with the last block number does not wrap, and no origin is both signed
  -- and unsigned.
  pub no_replay :
      (s : State AccountId) {t u : State AccountId} {v w : ValidTransaction ℕ} {n : ℕ}
      (c d : Call Public Signature) (origin : Origin)
      → 0 < config.unsigned_interval
      → u.block_number + config.unsigned_interval < config.block_values
      → validate_unsigned config verify s c ≡ ok v
      → validate_unsigned config verify s d ≡ ok w
      → dispatch sys config c origin s ≡ done t
      → Run sys config verify t n u
      → (e : InvalidTransaction) × (validate_unsigned config verify u d ≡ err e)
  no_replay s {t} {u} {v} {w} {n} c d origin pos fit h k e r =
      let (_, same) = prices-dispatch sys config c origin s e in
      let later = block_mono sys config verify r in
      let fit' : s.block_number + config.unsigned_interval < config.block_values = omega arith in
      let (_, moved) = next-unsigned sys config verify c origin s h e in
      let moved' : t.next_unsigned_at ≡ s.block_number + config.unsigned_interval =
        moved ∙ mod-eq_of_lt fit' in
      let (grown, _) = next_grows sys config verify law r fit in
      refused sys config verify u d (
        outdated s u d (omega (arith, moved', grown))
          ((validate_unsigned_iff config verify s d).0 (w, k)))
