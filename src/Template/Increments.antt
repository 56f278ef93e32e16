-- ===== src/Template/Increments.antt =====
-- What `do_something` and `cause_error` do to the stored number.
use substrate_node_template.Common.{
  ℕ, zero, suc, ◌+◌, ◌-◌, ◌<◌, ◌≡◌, ◌∙◌, ap, ◌⊎◌, some, ok, arith, u32_values, min,
}
use substrate_node_template.Frame.{state_after, System, failed, DispatchError}
use substrate_node_template.Template.{State, Error, do_something, cause_error}

module _ (sys : System) where
  open sys use {Origin, AccountId, ensure_signed}

  -- Whichever call fails, with whatever error, changes nothing.
  pub failed_unchanged :
      (origin : Origin) (n : ℕ) (s t : State AccountId) (e : DispatchError Error)
      → (do_something sys origin n s ≡ failed e t) ⊎ (cause_error sys origin s ≡ failed e t)
      → t ≡ s
  unfolding do_something cause_error
  failed_unchanged origin n s t e h = ground arith

  -- `k` calls of `cause_error`, one after another.
  pub repeat_cause_error : ℕ → Origin → State AccountId → State AccountId
  repeat_cause_error zero origin s = s
  repeat_cause_error (suc k) origin s =
      repeat_cause_error k origin (state_after s (cause_error sys origin s))

  cause_error_stored :
      (origin : Origin) (who : AccountId) (s : State AccountId) (v : ℕ)
      → ensure_signed origin ≡ ok who
      → s.something ≡ some v
      → v < u32_values
      → (state_after s (cause_error sys origin s)).something ≡ some (min (v + 1) (u32_values - 1))
  unfolding cause_error
  cause_error_stored origin who s v sig at fits = ground arith

  counts_from :
      (k : ℕ) (origin : Origin) (who : AccountId) (s : State AccountId) (v : ℕ)
      → ensure_signed origin ≡ ok who
      → s.something ≡ some v
      → v < u32_values
      → (repeat_cause_error k origin s).something ≡ some (min (v + k) (u32_values - 1))
  unfolding repeat_cause_error
  counts_from zero origin who s v sig at fits = at ∙ ap some (omega arith)
  counts_from (suc k) origin who s v sig at fits =
      counts_from k origin who _ (min (v + 1) (u32_values - 1)) sig
        (cause_error_stored origin who s v sig at fits) (omega arith)
      ∙ ap some (omega arith)

  do_something_stored :
      (origin : Origin) (who : AccountId) (s : State AccountId) (v : ℕ)
      → ensure_signed origin ≡ ok who
      → (state_after s (do_something sys origin v s)).something ≡ some v
  unfolding do_something
  do_something_stored origin who s v sig = ground arith

  -- After `do_something` has stored `v`, `k` signed calls of `cause_error` count it up by `k`, and
  -- stop at the largest u32: the number never wraps.
  pub cause_error_counts :
      (k : ℕ) (origin : Origin) (who : AccountId) (s : State AccountId) (v : ℕ)
      → ensure_signed origin ≡ ok who
      → v < u32_values
      → (repeat_cause_error k origin (state_after s (do_something sys origin v s))).something
        ≡ some (min (v + k) (u32_values - 1))
  cause_error_counts k origin who s v sig fits =
      counts_from k origin who _ v sig (do_something_stored origin who s v sig) fits
