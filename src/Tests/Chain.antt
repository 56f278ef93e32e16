-- ===== src/Tests/Chain.antt =====
-- A chain of the runtime with calls of all three pallets.
use substrate_node_template.Common.{
  ℕ, ◌≡◌, ◌↔◌, ◌⊎◌, ◌++◌, take_last, String, refl, Bool, ◌==◌, none, some, List, [], ◌∷◌, arith,
}
use substrate_node_template.Frame.{DispatchError, done, failed, origin_error, bad_origin}
use substrate_node_template.Template.{do_something}
use substrate_node_template.Template.Calls as TemplateCalls
use substrate_node_template.Template as Template
use substrate_node_template.Ocw.Types as OcwTypes
use substrate_node_template.Ocw.Types.{Payload, num_vec_len}
use substrate_node_template.Ocw.Calls as OcwCalls
use substrate_node_template.Ocw.Numbers.{append_or_replace_number}
use substrate_node_template.Ocw.Validity as OcwValidity
use substrate_node_template.ExampleOcw.Types as ExampleTypes
use substrate_node_template.ExampleOcw.Types.{PricePayload}
use substrate_node_template.ExampleOcw.Calls as ExampleCalls
use substrate_node_template.ExampleOcw.Prices.{add_price, mean}
use substrate_node_template.ExampleOcw.Validity as ExampleValidity
use substrate_node_template.ExampleOcw.Chain as ExampleChain
use substrate_node_template.Runtime.{example_config}
use substrate_node_template.Runtime.Pallets.{
  RuntimeCall, RuntimeError, template_module, ocw_demo, ocw_example, RuntimeState, dispatch,
  validate_unsigned,
}
use substrate_node_template.Runtime.Pallets.{text_tag, block_tag}
use substrate_node_template.Runtime.Pallets.Tags.{place, same_tag_iff}
use substrate_node_template.Runtime.Chain.{
  Run, set_block_number, start, next_block, signed, unsigned, rejected,
}
use substrate_node_template.Runtime.Chain.Atomic.{dispatch_atomic}
use substrate_node_template.Runtime.Chain.Numbers.{numbers_of, numbers-Run}
use substrate_node_template.Runtime.Chain.Oracle.{oracle_calls, Run-oracle}
use substrate_node_template.Runtime.Chain.Invariant.{IsWellFormed, Run-IsWellFormed}
use substrate_node_template.Tests.Mock.{mock_system}

-- A signature is good if it is the public key.
abbrev pub verify_number : Payload ℕ → ℕ → Bool
verify_number payload signature = payload.public == signature

abbrev pub verify_price : PricePayload ℕ → ℕ → Bool
verify_price payload signature = payload.public == signature

abbrev pub genesis : RuntimeState ℕ
genesis = record {
  template = record { something = none; events = [] };
  ocw = record { block_number = 1; numbers = []; events = [] };
  example = record { prices = []; next_unsigned_at = 0; block_number = 1; events = [] };
}

abbrev stores : RuntimeCall ℕ ℕ
stores = template_module (TemplateCalls.do_something 5)

abbrev pub submits_number : RuntimeCall ℕ ℕ
submits_number = ocw_demo (OcwTypes.Call.submit_number_unsigned 3)

abbrev pub submits_price : RuntimeCall ℕ ℕ
submits_price = ocw_example (ExampleTypes.Call.submit_price_unsigned 1 27)

abbrev stored : RuntimeState ℕ
stored = record genesis {
  template = record { something = some 5; events = Template.something_stored 5 7 ∷ [] };
}

abbrev numbered : RuntimeState ℕ
numbered = record stored {
  ocw = record { block_number = 1; numbers = 3 ∷ []; events = OcwTypes.new_number none 3 ∷ [] };
}

abbrev pub priced : RuntimeState ℕ
priced = record numbered {
  example = record {
    prices = 27 ∷ [];
    next_unsigned_at = 4;
    block_number = 1;
    events = ExampleTypes.new_price 27 0 ∷ [];
  };
}

stores_applied : dispatch mock_system stores (some 7) genesis ≡ done stored
unfolding dispatch TemplateCalls.dispatch do_something
stores_applied = refl

unsigned_fails : dispatch mock_system stores none genesis ≡ failed (origin_error bad_origin) genesis
unfolding dispatch TemplateCalls.dispatch do_something
unsigned_fails = refl

number_applied : dispatch mock_system submits_number none stored ≡ done numbered
unfolding dispatch OcwCalls.dispatch append_or_replace_number
number_applied = refl

price_applied : dispatch mock_system submits_price none numbered ≡ done priced
unfolding dispatch ExampleCalls.dispatch add_price mean
price_applied = refl

abbrev ChainTo : RuntimeState ℕ → List (RuntimeCall ℕ ℕ) → Type 0
ChainTo t calls = Run mock_system verify_number verify_price genesis calls t

pub chain : ChainTo (set_block_number 2 priced) (submits_price ∷ submits_number ∷ [])
unfolding validate_unsigned OcwValidity.validate_unsigned ExampleValidity.validate_unsigned
chain =
    next_block 2
      (unsigned submits_price none
        (unsigned submits_number none
          (signed stores (some 7) 7 (rejected stores none start unsigned_fails) (omega arith) refl
            stores_applied)
          (omega arith) refl number_applied)
        (omega arith) refl price_applied)
      (omega arith)

Run-oracle_example :
    ExampleChain.Run mock_system example_config verify_price genesis.example
      (oracle_calls (submits_price ∷ submits_number ∷ []))
      (record priced.example { block_number = 2 })
Run-oracle_example = Run-oracle mock_system verify_number verify_price chain

Run-IsWellFormed_example : IsWellFormed (set_block_number 2 priced)
Run-IsWellFormed_example = Run-IsWellFormed mock_system verify_number verify_price chain (record {
  something = tt;
  numbers = record { short = omega arith; words = tt };
  prices = record { short = omega arith; words = tt };
  same_block = refl;
})

-- A transaction of pallet-ocw and one of the oracle, valid in the same state.
same_tag_iff_example :
    ((◌≡◌ {A = String} "ocw-demo" "ExampleOffchainWorker")
      × (text_tag "submit_number_unsigned" ≡ block_tag 0))
    ↔ (place submits_number ≡ place submits_price)
unfolding validate_unsigned OcwValidity.validate_unsigned ExampleValidity.validate_unsigned
    ExampleValidity.valid_transaction
same_tag_iff_example =
    same_tag_iff mock_system verify_number verify_price stored submits_number submits_price refl
      refl

-- A call for a signed transaction, without a signer.
dispatch_atomic_example :
    ((t : RuntimeState ℕ) × (dispatch mock_system stores none genesis ≡ done t))
    ⊎ ((e : DispatchError RuntimeError) × (dispatch mock_system stores none genesis
          ≡ failed e genesis))
dispatch_atomic_example = dispatch_atomic mock_system stores none genesis

numbers-Run_example :
    (set_block_number 2 priced).ocw.numbers
    ≡ take_last num_vec_len ([] ++ numbers_of mock_system verify_number verify_price chain)
numbers-Run_example = numbers-Run mock_system verify_number verify_price [] chain refl
