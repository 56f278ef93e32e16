-- ===== src/Tests/Whole.antt =====
-- A chain of the whole runtime on which the key of Sudo acts for another account.
use substrate_node_template.Common.{
  ℕ, ◌≡◌, ◌⊎◌, inl, inr, refl, ◌≤◌, ◌*◌, sym, ap, suc, some, Bool, true, false, ◌==◌, [], ◌∷◌,
  Result, ok, err, arith,
}
use substrate_node_template.Frame.{
  System, IsLawful, BadOrigin, bad_origin, Dispatch, done, failed, panicked, origin_error,
}
use substrate_node_template.Template as Template
use substrate_node_template.Template.Calls as TemplateCalls
use substrate_node_template.Runtime.Pallets.{
  RuntimeCall, ocw_example, template_module, RuntimeError, RuntimeState, dispatch,
  validate_unsigned,
}
use substrate_node_template.Runtime.Whole.{
  Whole, WholeCall, own, sudo_call, sudo_as_call, Library, LibraryLaws, Leaves, dispatch_whole,
  WholeRun, begins, new_block, sent, accepted,
}
use substrate_node_template.Runtime.Whole.Genesis.{initial, genesis_bounds}
use substrate_node_template.Runtime.Chain.Invariant.{IsWellFormed}
use substrate_node_template.ExampleOcw.Types as ExampleTypes
use substrate_node_template.ExampleOcw.Calls as ExampleCalls
use substrate_node_template.ExampleOcw.Prices.{add_price, mean}
use substrate_node_template.ExampleOcw.Validity as ExampleValidity
use substrate_node_template.Tests.Chain.{verify_number, verify_price, genesis, submits_price}

data Origin : Type 0 where
  of_root of_nobody : Origin
  of_account : ℕ → Origin

abbrev signer : Origin → Result BadOrigin ℕ
signer (of_account a) = ok a
signer of_root = err bad_origin
signer of_nobody = err bad_origin

abbrev nobody : Origin → Result BadOrigin (Unit {0})
nobody of_nobody = ok tt
nobody of_root = err bad_origin
nobody (of_account a) = err bad_origin

abbrev system : System
system = record {
  Origin = Origin;
  AccountId = ℕ;
  ensure_signed = signer;
  ensure_none = nobody;
  default_account = 0;
}

abbrev W : Type 0
W = Whole ℕ ℕ

abbrev ended : W → Dispatch RuntimeError W → Dispatch RuntimeError W
ended w (done v) = done v
ended w (failed e v) = done v
ended w panicked = panicked

abbrev if_key : Bool → Dispatch RuntimeError W → W → Dispatch RuntimeError W
if_key true d w = ended w d
if_key false d w = failed (origin_error bad_origin) w

-- Account 1 is the key: its calls under Sudo run with another origin.
abbrev run_as :
    Origin → (Origin → W → Dispatch RuntimeError W) → Origin → W → Dispatch RuntimeError W
run_as other f (of_account a) w = if_key (a == 1) (f other w) w
run_as other f of_root w = failed (origin_error bad_origin) w
run_as other f of_nobody w = failed (origin_error bad_origin) w

-- Another call of a library counts itself; the raw one lets root empty the storage.
data OtherCall : Type 0 where
  counts wipes : OtherCall

abbrev IsWiping : OtherCall → Type 0
IsWiping counts = ⊥
IsWiping wipes = Unit

abbrev dispatch_other : OtherCall → Origin → W → Dispatch RuntimeError W
dispatch_other counts origin w = done (record w { library = suc w.library })
dispatch_other wipes of_root w = done (record w { pallets = initial })
dispatch_other wipes of_nobody w = failed (origin_error bad_origin) w
dispatch_other wipes (of_account a) w = failed (origin_error bad_origin) w

abbrev library : Library Origin ℕ
library = record {
  LibraryCall = OtherCall;
  IsRaw = IsWiping;
  Storage = ℕ;
  LibraryError = RuntimeError;
  runtime_error = λ e. e;
  dispatch_library = dispatch_other;
  sudo = run_as of_root;
  sudo_as = λ who. run_as (of_account who);
}

exclusive : (o : Origin) (who : ℕ) → signer o ≡ ok who → nobody o ≡ err bad_origin
exclusive (of_account a) who h = refl
exclusive of_root who h = refl
exclusive of_nobody who h = absurd (ground arith)

lawful : IsLawful system
lawful = record { signed_not_none = exclusive }

ended-Leaves : (d : Dispatch RuntimeError W) (w v : W) → Leaves (ended w d) v → Leaves d v
ended-Leaves (done t) w v h = h
ended-Leaves (failed e t) w v h = h
ended-Leaves panicked w v h = h

if_key_runs :
    (key : Bool) (d : Dispatch RuntimeError W) (w v : W)
    → Leaves (if_key key d w) v
    → (v.pallets ≡ w.pallets) ⊎ ((u : W) × Leaves d u × (v.pallets ≡ u.pallets))
if_key_runs true d w v h = inr (v, ended-Leaves d w v h, refl)
if_key_runs false d w v h = inl (ap (λ u. Whole.pallets u) (sym h))

run_as_runs :
    (other : Origin) (f : Origin → W → Dispatch RuntimeError W) (origin : Origin) (w v : W)
    → Leaves (run_as other f origin w) v
    → (v.pallets ≡ w.pallets) ⊎ ((u : W) × Leaves (f other w) u × (v.pallets ≡ u.pallets))
run_as_runs other f (of_account a) w v h = if_key_runs (a == 1) (f other w) w v h
run_as_runs other f of_root w v h = inl (ap (λ u. Whole.pallets u) (sym h))
run_as_runs other f of_nobody w v h = inl (ap (λ u. Whole.pallets u) (sym h))

other_keeps :
    (c : OtherCall) (origin : Origin) (w v : W)
    → Leaves (dispatch_other c origin w) v
    → (v.pallets ≡ w.pallets) ⊎ ((origin ≡ of_root) × IsWiping c)
other_keeps counts origin w v h = inl (ap (λ u. Whole.pallets u) (sym h))
other_keeps wipes of_root w v h = inr (refl, tt)
other_keeps wipes of_nobody w v h = inl (ap (λ u. Whole.pallets u) (sym h))
other_keeps wipes (of_account a) w v h = inl (ap (λ u. Whole.pallets u) (sym h))

library_laws : LibraryLaws system library of_root of_account
library_laws = record {
  signs = λ who. refl;
  root_not_signed = refl;
  root_not_none = refl;
  library_keeps = other_keeps;
  sudo_runs = λ f origin w v h. run_as_runs of_root f origin w v h;
  sudo_as_runs = λ who f origin w v h. run_as_runs (of_account who) f origin w v h;
}

abbrev stores : WholeCall ℕ OtherCall ℕ ℕ
stores = own (template_module (TemplateCalls.do_something 5))

-- Under Sudo the call fails; for account 7 it stores the number, and the event names that account.
abbrev acted : RuntimeState ℕ
acted = record genesis {
  template = record { something = some 5; events = Template.something_stored 5 7 ∷ [] };
}

abbrev sudo_chain :
    WholeRun system library verify_number verify_price
      (record { pallets = initial; library = 0 })
      []
      (record { pallets = acted; library = 0 })
unfolding dispatch_whole dispatch TemplateCalls.dispatch Template.do_something
sudo_chain =
    sent (sudo_as_call 7 stores) (of_account 1) 1
      (sent (sudo_call stores) (of_account 1) 1 (new_block 1 0 begins (omega arith)) (omega arith)
        refl refl)
      (omega arith) refl refl

abbrev second_price : RuntimeCall ℕ ℕ
second_price = ocw_example (ExampleTypes.Call.submit_price_unsigned 4 30)

-- The oracle takes a price in block 1 and another one in block 4.
abbrev two_prices : RuntimeState ℕ
two_prices = record acted {
  ocw = record { block_number = 4; numbers = []; events = [] };
  example = record {
    prices = 27 ∷ 30 ∷ [];
    next_unsigned_at = 7;
    block_number = 4;
    events = ExampleTypes.new_price 27 0 ∷ ExampleTypes.new_price 30 0 ∷ [];
  };
}

abbrev price_chain :
    WholeRun system library verify_number verify_price
      (record { pallets = initial; library = 0 })
      (second_price ∷ submits_price ∷ [])
      (record { pallets = two_prices; library = 9 })
unfolding dispatch_whole dispatch validate_unsigned ExampleValidity.validate_unsigned
    ExampleCalls.dispatch add_price mean
price_chain =
    accepted second_price of_nobody
      (new_block 4 9 (accepted submits_price of_nobody sudo_chain (omega arith) refl refl)
        (omega arith))
      (omega arith) refl refl

genesis_bounds_example : IsWellFormed two_prices × (1 * 3 ≤ 4)
unfolding price_chain sudo_chain
genesis_bounds_example =
    genesis_bounds system lawful library of_root of_account library_laws verify_number verify_price
      price_chain ((tt, tt), tt) (omega arith)
