-- ===== src/Runtime/Whole/Genesis.antt =====
-- Chains of the whole runtime from the genesis of the chain specifications, which leave the storage of
-- the three pallets as it is declared.
use substrate_node_template.Common.{
  ℕ, zero, suc, ◌+◌, ◌-◌, ◌*◌, ◌<◌, ◌≤◌, refl, Bool, List, [], none, arith, u32_values,
}
use substrate_node_template.Frame.{System, IsLawful}
use substrate_node_template.Ocw.Types.{Payload}
use substrate_node_template.ExampleOcw.Types.{PricePayload}
use substrate_node_template.ExampleOcw.Chain as ExampleChain
use substrate_node_template.ExampleOcw.Chain.Spacing.{unsigned_rate}
use substrate_node_template.Runtime.{example_config}
use substrate_node_template.Runtime.Pallets.{RuntimeCall, RuntimeState}
use substrate_node_template.Runtime.Chain.Invariant.{IsWellFormed, Run-IsWellFormed}
use substrate_node_template.Runtime.Chain.Oracle.{oracle_calls, Run-oracle}
use substrate_node_template.Runtime.Whole.{Whole, Library, LibraryLaws, WholeRun, HasNoRawWrites}
use substrate_node_template.Runtime.Whole.Refines.{WholeRun-Run}

-- Nothing is stored yet, at block 0: each storage item has the default that it is declared with
-- (`ValueQuery`, and `OptionQuery` for `Something`).
abbrev pub initial : {AccountId : Type 0} → RuntimeState AccountId
initial = record {
  template = record { something = none; events = [] };
  ocw = record { block_number = 0; numbers = []; events = [] };
  example = record { prices = []; next_unsigned_at = 0; block_number = 0; events = [] };
}

initial-IsWellFormed : {AccountId : Type 0} → IsWellFormed (initial {AccountId = AccountId})
initial-IsWellFormed = record {
  something = tt;
  numbers = record { short = omega arith; words = tt };
  prices = record { short = omega arith; words = tt };
  same_block = refl;
}

module _ (sys : System) (lawful : IsLawful sys)
    (lib : Library (System.Origin sys) (System.AccountId sys)) (root : System.Origin sys)
    (signed_by : System.AccountId sys → System.Origin sys)
    (laws : LibraryLaws sys lib root signed_by) {Public Signature : Type 0}
    (verify_ocw : Payload Public → Signature → Bool)
    (verify_example : PricePayload Public → Signature → Bool) where
  -- The rate of the oracle from genesis on.
  genesis_rate :
      (t : RuntimeState (System.AccountId sys)) (n : ℕ)
      → ExampleChain.Run sys example_config verify_example (initial.example) n t.example
      → t.example.block_number + 3 < u32_values
      → (n - 1) * 3 ≤ t.example.block_number
  genesis_rate t zero r fits = omega arith
  genesis_rate t (suc m) r fits =
      omega (arith, unsigned_rate sys example_config verify_example lawful r fits)

  -- A chain of the whole runtime from the initial storage of the three pallets, on which no raw call
  -- of the System pallet is dispatched as root under Sudo, keeps that storage within its bounds,
  -- whoever sends transactions and whatever else runs under Sudo: the template's number is a u32,
  -- pallet-ocw keeps at most ten numbers, each a u64, the oracle at most 64 prices, each a u32. And
  -- three blocks have passed for every unsigned price but one that the oracle has accepted. So if the
  -- block number has room for the interval, and the origins and the library pallets obey their laws.
  pub genesis_bounds :
      {storage : Library.Storage lib} {w : Whole (System.AccountId sys) (Library.Storage lib)}
      {l : List (RuntimeCall Public Signature)}
      (r : WholeRun sys lib verify_ocw verify_example
        (record { pallets = initial; library = storage })
        l
        w)
      → HasNoRawWrites sys lib verify_ocw verify_example r
      → w.pallets.example.block_number + 3 < u32_values
      → IsWellFormed w.pallets × ((oracle_calls l - 1) * 3 ≤ w.pallets.example.block_number)
  genesis_bounds {w = w} {l = l} r free fits =
      let run = WholeRun-Run sys lib root signed_by laws verify_ocw verify_example r free in
      (
        Run-IsWellFormed sys verify_ocw verify_example run initial-IsWellFormed,
        genesis_rate w.pallets (oracle_calls l) (Run-oracle sys verify_ocw verify_example run) fits,
      )
