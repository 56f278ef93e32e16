-- ===== src/ExampleOcw/Chain/Spacing.antt =====
-- How often unsigned transactions are accepted.
use native.Mathlib.Nat.{mod-eq_of_lt}
use substrate_node_template.Common.{
  ℕ, suc, ◌+◌, ◌*◌, ◌%◌, ◌≤◌, ◌<◌, ◌≡◌, refl, ◌⊎◌, inl, Bool, ok, err, arith,
}
use substrate_node_template.Frame.{
  TransactionValidity, System, IsLawful, ValidTransaction, InvalidTransaction, done,
}
use substrate_node_template.ExampleOcw.Types.{Config, State, Call, PricePayload}
use substrate_node_template.ExampleOcw.Prices.Bounds.{IsBounded}
use substrate_node_template.ExampleOcw.Calls.{dispatch}
use substrate_node_template.ExampleOcw.Calls.Effects.{
  dispatch-outcome, dispatch-IsBounded, prices-dispatch,
}
use substrate_node_template.ExampleOcw.Validity.{validate_unsigned}
use substrate_node_template.ExampleOcw.Validity.Window.{IsAcceptable, validate_unsigned_iff}
use substrate_node_template.ExampleOcw.Chain.{Run, start, next_block, signed, unsigned}

module _ (sys : System) (config : Config) {Public Signature : Type 0}
    (verify : PricePayload Public → Signature → Bool) where
  open sys use {Origin, AccountId}

  -- A signed transaction leaves the next accepted block alone.
  pub next-signed :
      IsLawful sys
      → (c : Call Public Signature) (origin : Origin) (who : AccountId) (t : State AccountId)
        {u : State AccountId}
      → sys.ensure_signed origin ≡ ok who
      → dispatch sys config c origin t ≡ done u
      → u.next_unsigned_at ≡ t.next_unsigned_at
  next-signed law (Call.submit_price price) origin who t s e = ground (
    arith,
    dispatch-outcome sys config {Public = Public} {Signature = Signature} (Call.submit_price price)
        origin t,
  )
  next-signed law c origin who t s e = ground (
    arith,
    dispatch-outcome sys config {Public = Public} {Signature = Signature} c origin t,
    law.signed_not_none origin who s,
  )

  -- An unsigned transaction comes no earlier than the next accepted block, and moves that on.
  pub next-unsigned :
      (c : Call Public Signature) (origin : Origin) (t : State AccountId) {u : State AccountId}
      {v : ValidTransaction ℕ}
      → validate_unsigned config verify t c ≡ ok v
      → dispatch sys config c origin t ≡ done u
      → (t.next_unsigned_at ≤ t.block_number)
        × (u.next_unsigned_at ≡ (t.block_number + config.unsigned_interval) % config.block_values)
  next-unsigned (Call.submit_price price) origin t {v = v} h e =
      absurd ((validate_unsigned_iff config verify t (Call.submit_price price)).0 (v, h))
  next-unsigned (Call.submit_price_unsigned b p) origin t {v = v} h e = ground (
    arith,
    dispatch-outcome sys config {Public = Public} {Signature = Signature}
        (Call.submit_price_unsigned b p) origin t,
    (validate_unsigned_iff config verify t (Call.submit_price_unsigned b p)).0 (v, h),
  )
  next-unsigned (Call.submit_price_unsigned_with_signed_payload p g) origin t {v = v} h e = ground (
    arith,
    dispatch-outcome sys config {Public = Public} {Signature = Signature}
        (Call.submit_price_unsigned_with_signed_payload p g) origin t,
    (validate_unsigned_iff config verify t (Call.submit_price_unsigned_with_signed_payload p g)).0
        (v, h),
  )

  pub block_mono :
      {s t : State AccountId} {n : ℕ}
      → Run sys config verify s n t
      → s.block_number ≤ t.block_number
  block_mono start = omega arith
  block_mono (next_block b r h) = omega (arith, block_mono r)
  block_mono (signed {t = t} c origin who r w o e) =
      omega (arith, block_mono r, (prices-dispatch sys config c origin t e).1)
  block_mono (unsigned {t = t} c origin r w h e) =
      omega (arith, block_mono r, (prices-dispatch sys config c origin t e).1)

  -- If the list holds at most 64 prices, each a u32, it does so after every run of the chain on
  -- which all calls carry u32 prices.
  pub Run-IsBounded :
      {s t : State AccountId} {n : ℕ}
      → Run sys config verify s n t
      → IsBounded s.prices
      → IsBounded t.prices
  Run-IsBounded start h = h
  Run-IsBounded (next_block b r l) h = Run-IsBounded r h
  Run-IsBounded (signed {t = t} c origin who r w o e) h =
      dispatch-IsBounded sys config c origin t w (Run-IsBounded r h) e
  Run-IsBounded (unsigned {t = t} c origin r w v e) h =
      dispatch-IsBounded sys config c origin t w (Run-IsBounded r h) e

  -- A call is refused where it is not acceptable.
  pub refused :
      (s : State AccountId) (c : Call Public Signature)
      → ¬ IsAcceptable config verify s c
      → (e : InvalidTransaction) × (validate_unsigned config verify s c ≡ err e)
  refused s c h = go (validate_unsigned config verify s c) refl
    where
      go :
          (r : TransactionValidity ℕ)
          → validate_unsigned config verify s c ≡ r
          → (e : InvalidTransaction) × (validate_unsigned config verify s c ≡ err e)
      go (ok v) e = absurd (h ((validate_unsigned_iff config verify s c).0 (v, e)))
      go (err x) e = (x, e)

  too_early :
      (s : State AccountId) (c : Call Public Signature)
      → s.block_number < s.next_unsigned_at
      → ¬ IsAcceptable config verify s c
  too_early s (Call.submit_price price) lt h = h
  too_early s (Call.submit_price_unsigned b p) lt h = omega arith
  too_early s (Call.submit_price_unsigned_with_signed_payload p g) lt h = omega arith

  module _ (law : IsLawful sys) where
    pub next_grows :
        {s t : State AccountId} {n : ℕ}
        → Run sys config verify s n t
        → t.block_number + config.unsigned_interval < config.block_values
        → (s.next_unsigned_at + n * config.unsigned_interval ≤ t.next_unsigned_at)
          × ((n ≡ 0) ⊎ (t.next_unsigned_at ≤ t.block_number + config.unsigned_interval))
    next_grows start fit = ground arith
    next_grows (next_block b r l) fit = ground (arith, next_grows r (omega arith))
    next_grows (signed {t = t} c origin who r w o e) fit =
        let (_, same) = prices-dispatch sys config c origin t e in
        ground (arith, next-signed law c origin who t o e, next_grows r (omega arith))
    next_grows (unsigned {n = n} {t = t} c origin r w h e) fit =
        let (_, same) = prices-dispatch sys config c origin t e in
        let (ready, moved) = next-unsigned c origin t h e in
        let fit' : t.block_number + config.unsigned_interval < config.block_values = omega arith in
        let (grown, _) = next_grows r fit' in ground (arith, mod-eq_of_lt fit')

    pub unsigned_rate :
        {s t : State AccountId} {m : ℕ}
        → Run sys config verify s (suc m) t
        → t.block_number + config.unsigned_interval < config.block_values
        → s.next_unsigned_at + m * config.unsigned_interval ≤ t.block_number
    unsigned_rate {m = m} r fit = ground (arith, next_grows r fit)

    wait :
        {t u : State AccountId} {n : ℕ}
        → Run sys config verify t n u
        → (u.next_unsigned_at ≡ t.next_unsigned_at) ⊎ (t.next_unsigned_at ≤ u.block_number)
    wait start = inl refl
    wait (next_block b r l) = ground (arith, wait r)
    wait (signed {t = t} c origin who r w o e) =
        let (_, same) = prices-dispatch sys config c origin t e in
        ground (arith, next-signed law c origin who t o e, wait r)
    wait (unsigned {t = t} c origin r w h e) =
        let (_, same) = prices-dispatch sys config c origin t e in
        let (ready, _) = next-unsigned c origin t h e in ground (arith, wait r)

    -- Once an unsigned transaction has been accepted in state `s`, every unsigned transaction is
    -- refused in every later state until the block number has grown by the whole interval, if that
    -- sum does not wrap and no origin is both signed and unsigned.
    pub unsigned_cooldown :
        (s : State AccountId) {t u : State AccountId} {v : ValidTransaction ℕ} {n : ℕ}
        (c d : Call Public Signature) (origin : Origin)
        → s.block_number + config.unsigned_interval < config.block_values
        → validate_unsigned config verify s c ≡ ok v
        → dispatch sys config c origin s ≡ done t
        → Run sys config verify t n u
        → u.block_number < s.block_number + config.unsigned_interval
        → (e : InvalidTransaction) × (validate_unsigned config verify u d ≡ err e)
    unsigned_cooldown s {u} c d origin fit h e r early =
        refused u d
          (too_early u d (ground (arith, next-unsigned c origin s h e, mod-eq_of_lt fit, wait r)))
