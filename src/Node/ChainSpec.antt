-- ===== src/Node/ChainSpec.antt =====
-- node/src/chain_spec.rs: the two chains that come with the node, and their genesis.
pub mod Genesis
use Prim.Native.String.{◌++◌}
use substrate_node_template.Common.{
  ℕ, ◌^◌, String, Option, none, some, List, [], ◌∷◌, map, Result, ok, err,
}

-- Key types and `TPublic::Pair::from_string(s, None)` with `.public()`, one for each; `into_account` of
-- the sr25519 key.
pub record Keys : Type 1 where
  pub AuraId : Type 0
  pub GrandpaId : Type 0
  pub Sr25519Public : Type 0
  pub AccountId : Type 0
  pub aura_from_string : String → Option AuraId
  pub grandpa_from_string : String → Option GrandpaId
  pub sr25519_from_string : String → Option Sr25519Public
  pub into_account : Sr25519Public → AccountId

pub data ChainType : Type 0 where
  development local : ChainType

-- `none` is the panic of `expect` on a seed that is no key.
abbrev pub get_from_seed : {P : Type 0} → (String → Option P) → String → Option P
get_from_seed from_string seed = from_string ("//" ++ seed)

module _ (keys : Keys) where
  open keys use {
    AuraId, GrandpaId, AccountId, aura_from_string, grandpa_from_string, sr25519_from_string,
    into_account,
  }

  pub record GenesisConfig : Type 0 where
    pub code : List ℕ
    pub balances : List (AccountId × ℕ)
    pub aura_authorities : List AuraId
    pub grandpa_authorities : List (GrandpaId × ℕ)
    pub sudo_key : AccountId

  -- What `ChainSpec::from_genesis` is given, less the empty and missing settings. `genesis` is what the
  -- closure builds, `none` where that panics.
  pub record ChainSpec : Type 0 where
    pub name : String
    pub id : String
    pub chain_type : ChainType
    pub genesis : Option GenesisConfig

  abbrev pub get_account_id_from_seed : String → Option AccountId
  get_account_id_from_seed seed = elim (get_from_seed sr25519_from_string seed) [
    | none ↦ none
    | some p ↦ some (into_account p)
  ]

  abbrev pub authority_keys_from_seed : String → Option (AuraId × GrandpaId)
  authority_keys_from_seed s = elim (get_from_seed aura_from_string s) [
    | none ↦ none
    | some a ↦ elim (get_from_seed grandpa_from_string s) [ none ↦ none | some g ↦ some (a, g) ]
  ]

  -- `1 << 60` of a u128, and the weight of an authority
  abbrev pub endowment : ℕ
  endowment = 2 ^ 60

  unfoldable pub testnet_genesis :
      List ℕ → List (AuraId × GrandpaId) → AccountId → List AccountId → GenesisConfig
  testnet_genesis wasm_binary initial_authorities root_key endowed_accounts = record {
    code = wasm_binary;
    balances = map (λ k. (k, endowment)) endowed_accounts;
    aura_authorities = map (λ x. x.0) initial_authorities;
    grandpa_authorities = map (λ x. (x.1, 1)) initial_authorities;
    sudo_key = root_key;
  }

  -- A `vec!` of keys, each from a seed.
  unfoldable pub all_from : {A : Type 0} → (String → Option A) → List String → Option (List A)
  all_from f [] = some []
  all_from f (seed ∷ seeds) =
      let rest = all_from f seeds in
      elim (f seed) [ none ↦ none | some a ↦ elim rest [ none ↦ none | some as' ↦ some (a ∷ as') ] ]

  -- The body of both closures: the genesis of the authorities, the root and the accounts with the
  -- given seeds.
  unfoldable pub genesis_from_seeds :
      List ℕ → List String → String → List String → Option GenesisConfig
  unfolding testnet_genesis all_from
  genesis_from_seeds wasm_binary authorities root accounts =
      elim (all_from authority_keys_from_seed authorities) [
        | none ↦ none
        | some initial ↦ elim (get_account_id_from_seed root) [
          | none ↦ none
          | some root_key ↦ elim (all_from get_account_id_from_seed accounts) [
            | none ↦ none
            | some endowed ↦ some (testnet_genesis wasm_binary initial root_key endowed)
          ]
        ]
      ]

  unfoldable pub development_config : Option (List ℕ) → Result String ChainSpec
  unfolding genesis_from_seeds
  development_config none = err "Development wasm not available"
  development_config (some wasm_binary) = ok (record {
    name = "Development";
    id = "dev";
    chain_type = development;
    genesis =
        genesis_from_seeds wasm_binary ("Alice" ∷ []) "Alice"
          ("Alice" ∷ "Bob" ∷ "Alice//stash" ∷ "Bob//stash" ∷ []);
  })

  unfoldable pub local_testnet_config : Option (List ℕ) → Result String ChainSpec
  unfolding genesis_from_seeds
  local_testnet_config none = err "Development wasm not available"
  local_testnet_config (some wasm_binary) = ok (record {
    name = "Local Testnet";
    id = "local_testnet";
    chain_type = local;
    genesis = genesis_from_seeds wasm_binary ("Alice" ∷ "Bob" ∷ []) "Alice" (
        "Alice" ∷ "Bob" ∷ "Charlie" ∷ "Dave" ∷ "Eve" ∷ "Ferdie" ∷ "Alice//stash" ∷ "Bob//stash"
        ∷ "Charlie//stash" ∷ "Dave//stash" ∷ "Eve//stash" ∷ "Ferdie//stash" ∷ []);
  })
