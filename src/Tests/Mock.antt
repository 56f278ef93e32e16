-- ===== src/Tests/Mock.antt =====
-- Stand-ins for FRAME, the host of the off-chain workers and the JSON parser.
use substrate_node_template.Common.{
  if◌then◌else◌, ltb, u64_values, ◌%◌, u32_values, false, String, ℕ, ◌+◌, ◌≡◌, refl, true, Bool,
  ◌==◌, ==_iff, Option, none, some, List, [], ◌∷◌, Result, ok, err, ℤ, arith,
}
use substrate_node_template.Frame.{System, IsLawful, BadOrigin, bad_origin}
use substrate_node_template.Offchain.{
  Host, MutableStorage, MutateStorageError, value_function_failed, MutateOutcome, written, declined,
  Submitter, Submitted, signed_tx, unsigned_tx,
}
use substrate_node_template.Offchain.Pool.{SubmitterLaws}
use substrate_node_template.Ocw.Json.{Serde}
use substrate_node_template.ExampleOcw.Parse.{LiteJson}

-- `none` is the origin of an unsigned transaction, `some a` is signed by account `a`.
abbrev signed_of : Option ℕ → Result BadOrigin ℕ
signed_of none = err bad_origin
signed_of (some a) = ok a

abbrev none_of : Option ℕ → Result BadOrigin (Unit {0})
none_of none = ok tt
none_of (some a) = err bad_origin

abbrev pub mock_system : System
mock_system = record {
  Origin = Option ℕ;
  AccountId = ℕ;
  ensure_signed = signed_of;
  ensure_none = none_of;
  default_account = 0;
}

mock_exclusive : (o : Option ℕ) (who : ℕ) → signed_of o ≡ ok who → none_of o ≡ err bad_origin
mock_exclusive none who h = absurd (ground arith)
mock_exclusive (some a) who h = refl

pub mock_system-IsLawful : IsLawful mock_system
mock_system-IsLawful = record { signed_not_none = mock_exclusive }

-- A world for a pallet with calls `C`: its pool, and a `V` under the one key in use.
pub record World (C V : Type 0) : Type 0 where
  pub pool : List (Submitted C)
  pub value : Option V

-- Every request is answered with the same status and body.
abbrev pub mock_host : Type 0 → Type 0 → ℕ → List ℕ → Host
mock_host C V status bytes = record {
  World = World C V;
  Pending = Unit {0};
  Response = List ℕ;
  timestamp = λ w. (0, w);
  add_millis = λ t d. t + d;
  send = λ url d w. (some tt, w);
  try_wait = λ p d w. (ok (ok bytes), w);
  code = λ r. status;
  body = λ r w. (r, w);
}

-- A signature is good if it is what `sign` gives.
abbrev pub mock_verify : {P : Type 0} → (P → ℕ) → P → ℕ → Bool
mock_verify sign payload signature = sign payload == signature

module _ {C V : Type 0} where
  abbrev after_mutate :
      World C V → Result (Unit {0}) V → Result (MutateStorageError V (Unit {0})) V × World C V
  after_mutate w (ok v) = (ok v, record w { value = some v })
  after_mutate w (err e) = (err (value_function_failed e), w)

  abbrev pub mock_storage : MutableStorage (World C V) V
  mock_storage = record {
    RetrievalError = Unit {0};
    mutate = λ key f w. after_mutate w (f (ok (World.value w)));
  }

  abbrev pub mock_stored : World C V → Result (Unit {0}) (Option V)
  mock_stored w = ok (World.value w)

  after_mutate_pool :
      (w : World C V) (r : Result (Unit {0}) V) → World.pool (after_mutate w r).1 ≡ World.pool w
  after_mutate_pool w (ok v) = refl
  after_mutate_pool w (err e) = refl

  pub mock_mutate_keeps :
      (key : String) (f : Result (Unit {0}) (Option V) → Result (Unit {0}) V) (w : World C V)
      → World.pool (MutableStorage.mutate mock_storage key f w).1 ≡ World.pool w
  mock_mutate_keeps key f w = after_mutate_pool w (f (mock_stored w))

  pub mock_atomic :
      (f : Result (Unit {0}) (Option V) → Result (Unit {0}) V) (w : World C V)
      → MutateOutcome mock_storage mock_stored f w (after_mutate w (f (mock_stored w)))
  mock_atomic f w = go (f (mock_stored w)) refl
    where
      go :
          (r : Result (Unit {0}) V)
          → f (mock_stored w) ≡ r
          → MutateOutcome mock_storage mock_stored f w (after_mutate w (f (mock_stored w)))
      go (ok v) e = written v e (rw e) (rw e)
      go (err x) e = declined x e (rw e) (rw e)

  abbrev pub push : Submitted C → World C V → World C V
  push c w = record w { pool = c ∷ World.pool w }

  -- One account, 7, which signs with `sign`; `embed` makes calls of the pool of calls of type `D`.
  abbrev pub mock_submitter : {D P : Type 0} → (D → C) → (P → ℕ) → Submitter (World C V) ℕ ℕ D P
  mock_submitter embed sign = record {
    Account = ℕ;
    account_public = λ a. a;
    can_sign = λ w. true;
    send_signed_all = λ f w. ((7, ok tt) ∷ [], push (signed_tx (embed (f 7))) w);
    send_signed_any = λ f w. (some (7, ok tt), push (signed_tx (embed (f 7))) w);
    send_unsigned_any =
        λ f g w. (some (7, ok tt), push (unsigned_tx (embed (g (f 7) (sign (f 7))))) w);
    send_unsigned_all =
        λ f g w. ((7, ok tt) ∷ [], push (unsigned_tx (embed (g (f 7) (sign (f 7))))) w);
    submit_unsigned = λ c w. (ok tt, push (unsigned_tx (embed c)) w);
  }

  pub mock_submitter-laws :
      {D P : Type 0} (embed : D → C) (sign : P → ℕ)
      → SubmitterLaws (mock_submitter embed sign) (mock_verify sign) embed World.pool
  mock_submitter-laws embed sign = record {
    signed_all_adds = λ f w. (signed_tx (embed (f 7)) ∷ [], refl, ((7, refl), tt));
    signed_any_adds = λ f w. (signed_tx (embed (f 7)) ∷ [], refl, ((7, refl), tt));
    any_adds = λ f g w. (
      unsigned_tx (embed (g (f 7) (sign (f 7)))) ∷ [],
      refl,
      ((7, sign (f 7), (==_iff (sign (f 7)) _).1 refl, refl), tt),
    );
    all_adds = λ f g w. (
      unsigned_tx (embed (g (f 7) (sign (f 7)))) ∷ [],
      refl,
      ((7, sign (f 7), (==_iff (sign (f 7)) _).1 refl, refl), tt),
    );
    submit_adds = λ c w. (unsigned_tx (embed c) ∷ [], refl, (refl, tt));
  }

-- A document with numbers only: an integer, a fraction and its length each.
pub record Number : Type 0 where
  pub whole : ℤ
  pub digits : ℕ
  pub places : ℕ

pub data Document : Type 0 where
  object : List (List ℕ × Number) → Document
  number : Number → Document

abbrev entries : List (List ℕ × Number) → List (List ℕ × Document)
entries [] = []
entries ((k, n) ∷ rest) = (k, number n) ∷ entries rest

abbrev members : Document → Option (List (List ℕ × Document))
members (object l) = some (entries l)
members (number n) = none

abbrev number_in : Document → Option Number
number_in (object l) = none
number_in (number n) = some n

-- A parser that reads every text as the same document.
abbrev pub mock_json : Document → LiteJson
mock_json doc = record {
  JsonValue = Document;
  NumberValue = Number;
  parse_json = λ text. some doc;
  as_object = members;
  as_number = number_in;
  integer = λ n. n.whole;
  fraction = λ n. n.digits % u64_values;
  fraction_length = λ n. n.places;
  fraction_fits = λ n. omega arith;
}

-- A document of serde_json as its fields: a text, with whether it is written with an escape sequence,
-- or a number.
pub data Entry : Type 0 where
  text_entry : Bool → List ℕ → Entry
  number_entry : ℕ → Entry

abbrev borrowed : Entry → Option (List ℕ)
borrowed (text_entry true s) = none
borrowed (text_entry false s) = some s
borrowed (number_entry n) = none

abbrev u32_of : Entry → Option ℕ
u32_of (text_entry escaped s) = none
u32_of (number_entry n) = if ltb n u32_values then some n else none

-- Every text is read as the same document.
abbrev pub mock_serde : (String → Option Entry) → Serde
mock_serde fields = record {
  Document = String → Option Entry;
  Value = Entry;
  parse = λ text. some fields;
  field = λ doc name. doc name;
  as_str = borrowed;
  as_u32 = u32_of;
}
