-- ===== src/Template/Benchmarking.antt =====
-- pallets/template/src/benchmarking.rs: the benchmark of `do_something`, as what it runs and checks.
use substrate_node_template.Common.{ℕ, ◌≡◌, Bool, true, false, Option, none, some, ok, ◌==◌, arith}
use substrate_node_template.Frame.{System, done, failed, panicked}
use substrate_node_template.Template.{State, Outcome, do_something}

abbrev pub same_number : Option ℕ → ℕ → Bool
same_number none s = false
same_number (some n) s = n == s

module _ (sys : System) where
  open sys use {Origin, AccountId, ensure_signed}

  -- The `verify` block: whether its assertion holds. A call that fails ends the run before it.
  abbrev pub verify : Outcome sys → ℕ → Bool
  verify (done state) s = same_number state.something s
  verify (failed e state) s = false
  verify panicked s = false

  -- `signed` is `RawOrigin::Signed`, `caller` the library's `whitelisted_caller`.
  module _ (signed : AccountId → Origin) (caller : AccountId) where
    unfoldable pub benchmark_do_something : ℕ → State AccountId → Bool
    benchmark_do_something s state = verify (do_something sys (signed caller) s state) s

    -- The benchmark passes for every value of its component, from every storage, if `RawOrigin::Signed`
    -- of an account is an origin that the account has signed.
    benchmark_do_something_passes :
        (s : ℕ) (state : State AccountId)
        → ((who : AccountId) → ensure_signed (signed who) ≡ ok who)
        → benchmark_do_something s state ≡ true
    unfolding benchmark_do_something do_something
    benchmark_do_something_passes s state signs = rw (signs caller) (ground arith)
