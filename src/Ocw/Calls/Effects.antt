-- ===== src/Ocw/Calls/Effects.antt =====
-- What the calls of pallet-ocw do to the storage: one at a time, and over any sequence.
use mathlib.Core.List.{append_assoc, append-nil}
use substrate_node_template.Common.{
  ℕ, ◌≡◌, ap, ◌∙◌, Option, none, some, List, [], ◌∷◌, ◌++◌, arith, Result, Result-cases, inl, inr,
  ok, err, take_last,
}
use substrate_node_template.Frame.{System, done, BadOrigin, check_origin, state_after}
use substrate_node_template.Ocw.Types.{State, Call, Error, new_number, num_vec_len}
use substrate_node_template.Ocw.Numbers.{push_number, append_or_replace_number}
use substrate_node_template.Ocw.Numbers.Recent.{push_number-take_last}
use substrate_node_template.Ocw.Calls.{dispatch}

abbrev pub number_of : {Public Signature : Type 0} → Call Public Signature → ℕ
number_of (Call.submit_number_signed number) = number
number_of (Call.submit_number_unsigned number) = number
number_of (Call.submit_number_unsigned_with_signed_payload payload signature) = payload.number

abbrev pub stored : {AccountId : Type 0} → Option AccountId → ℕ → State AccountId → State AccountId
stored who number s = record {
  block_number = s.block_number;
  numbers = push_number s.numbers number;
  events = s.events ++ (new_number who number ∷ []);
}

abbrev some_ok : {A : Type 0} → Result BadOrigin A → Result BadOrigin (Option A)
some_ok (ok who) = ok (some who)
some_ok (err e) = err e

abbrev none_ok : {A : Type 0} → Result BadOrigin (Unit {0}) → Result BadOrigin (Option A)
none_ok (ok _) = ok none
none_ok (err e) = err e

module _ (sys : System) {Public Signature : Type 0} where
  open sys use {Origin, AccountId, ensure_signed, ensure_none}

  -- The origin check of a call: whom its event names, or why it fails.
  abbrev pub sender : Call Public Signature → Origin → Result BadOrigin (Option AccountId)
  sender (Call.submit_number_signed number) origin = some_ok (ensure_signed origin)
  sender (Call.submit_number_unsigned number) origin = none_ok (ensure_none origin)
  sender (Call.submit_number_unsigned_with_signed_payload payload signature) origin =
      none_ok (ensure_none origin)

  -- A call never panics. With the origin that it asks for, it pushes its number and deposits one
  -- event, which names the signer of a signed call and nobody for the other two. With any other
  -- origin it fails and changes nothing.
  pub dispatch-sender :
      (c : Call Public Signature) (origin : Origin) (s : State AccountId)
      → dispatch sys c origin s
        ≡ check_origin (sender c origin) s (λ who. done (stored who (number_of c) s))
  unfolding dispatch append_or_replace_number
  dispatch-sender (Call.submit_number_signed number) origin s = ground arith
  dispatch-sender (Call.submit_number_unsigned number) origin s = ground arith
  dispatch-sender (Call.submit_number_unsigned_with_signed_payload payload signature) origin s =
      ground arith

  -- The numbers of the calls that come with the right origin.
  pub accepted : List (Call Public Signature × Origin) → List ℕ
  accepted [] = []
  accepted ((c, origin) ∷ calls) =
      let rest = accepted calls in
      elim (sender c origin) [ ok _ ↦ number_of c ∷ rest | err _ ↦ rest ]

  -- The storage after a sequence of transactions.
  pub apply_all : List (Call Public Signature × Origin) → State AccountId → State AccountId
  apply_all [] s = s
  apply_all ((c, origin) ∷ calls) s = apply_all calls (state_after s (dispatch sys c origin s))

  after_dispatch :
      (c : Call Public Signature) (origin : Origin) (s : State AccountId)
      {r : Result BadOrigin (Option AccountId)}
      → sender c origin ≡ r
      → state_after s (dispatch sys c origin s)
        ≡ state_after s (check_origin {E = Error} r s (λ who. done (stored who (number_of c) s)))
  after_dispatch c origin s e = rw (dispatch-sender, e)

  accepted_ok :
      (c : Call Public Signature) (origin : Origin) (calls : List (Call Public Signature × Origin))
      {who : Option AccountId}
      → sender c origin ≡ ok who
      → accepted ((c, origin) ∷ calls) ≡ number_of c ∷ accepted calls
  unfolding accepted
  accepted_ok c origin calls e = ground arith

  accepted_err :
      (c : Call Public Signature) (origin : Origin) (calls : List (Call Public Signature × Origin))
      {x : BadOrigin}
      → sender c origin ≡ err x
      → accepted ((c, origin) ∷ calls) ≡ accepted calls
  unfolding accepted
  accepted_err c origin calls e = ground arith

  -- After any sequence of transactions, whatever their origins, the stored numbers are the last ten
  -- of the numbers whose calls were accepted, those from before the sequence included.
  pub numbers-apply_all :
      (calls : List (Call Public Signature × Origin)) (s : State AccountId) (before : List ℕ)
      → s.numbers ≡ take_last num_vec_len before
      → (apply_all calls s).numbers ≡ take_last num_vec_len (before ++ accepted calls)
  unfolding accepted apply_all
  numbers-apply_all [] s before h = rw append-nil h
  numbers-apply_all ((c, origin) ∷ calls) s before h = elim (Result-cases (sender c origin)) [
    | inl (who, e) ↦ rw (accepted_ok c origin calls e) (
        ap (λ t. (apply_all calls t).numbers) (after_dispatch c origin s e)
        ∙ numbers-apply_all calls (stored who (number_of c) s) (before ++ (number_of c ∷ []))
            (rw h (push_number-take_last before (number_of c)))
        ∙ ap (take_last num_vec_len) (append_assoc before (number_of c ∷ []) (accepted calls)))
    | inr (x, e) ↦ rw (accepted_err c origin calls e) (
        ap (λ t. (apply_all calls t).numbers) (after_dispatch c origin s e)
        ∙ numbers-apply_all calls s before h)
  ]
