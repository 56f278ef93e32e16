-- ===== src/Template/Bounds.antt =====
-- The range of the stored number.
use substrate_node_template.Common.{
  ℕ, ◌+◌, ◌<◌, ◌≡◌, Option, none, some, inl, inr, Option-cases, arith, u32_values,
}
use substrate_node_template.Frame.{System, done}
use substrate_node_template.Template.{State, do_something, cause_error}
use substrate_node_template.Template.Calls.{Call, dispatch}

-- The number, if there is one, is a u32.
abbrev pub IsWord : Option ℕ → Type 0
IsWord none = Unit
IsWord (some n) = n < u32_values

-- The number that a call stores is a u32.
abbrev pub IsWordCall : Call → Type 0
IsWordCall (Call.do_something something) = something < u32_values
IsWordCall Call.cause_error = Unit

module _ (sys : System) where
  open sys use {Origin, AccountId}

  do_something-IsWord :
      (origin : Origin) (something : ℕ) (s : State AccountId) {t : State AccountId}
      → something < u32_values
      → do_something sys origin something s ≡ done t
      → IsWord t.something
  unfolding do_something
  do_something-IsWord origin something s {t = t} word e =
      let stored : t.something ≡ some something = ground arith in rw stored word

  cause_error-IsWord :
      (origin : Origin) (s : State AccountId) {t : State AccountId}
      → cause_error sys origin s ≡ done t
      → IsWord t.something
  unfolding cause_error
  cause_error-IsWord origin s {t = t} e = elim (Option-cases s.something) [
    | inl empty ↦ absurd (ground arith)
    | inr (old, at) ↦
        let fits : old + 1 < u32_values = ground arith in
        let stored : t.something ≡ some (old + 1) = ground arith in rw stored fits
  ]

  -- A call that carries a u32 keeps the stored number a u32.
  pub dispatch-IsWord :
      (c : Call) (origin : Origin) (s : State AccountId) {t : State AccountId}
      → IsWordCall c
      → dispatch sys c origin s ≡ done t
      → IsWord t.something
  unfolding dispatch
  dispatch-IsWord (Call.do_something something) origin s word e =
      do_something-IsWord origin something s word e
  dispatch-IsWord Call.cause_error origin s word e = cause_error-IsWord origin s e
