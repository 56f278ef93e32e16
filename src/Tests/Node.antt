-- ===== src/Tests/Node.antt =====
-- The genesis of the chains and the signed extrinsic of the runtime, at concrete inputs.
use substrate_node_template.Common.{ℕ, ◌≡◌, refl, String, none, some, [], ◌∷◌, ok, err, inl}
use substrate_node_template.Node.ChainSpec.{
  Keys, GenesisConfig, ChainSpec, testnet_genesis, all_from, genesis_from_seeds, development_config,
  local_testnet_config, development,
}
use substrate_node_template.Node.ChainSpec.Genesis.{IsGenesis, genesis-IsGenesis}
use substrate_node_template.Node.Command.Spec.{load_spec, dev_id, local_id}
use substrate_node_template.Runtime.Transaction.{Extrinsics, SignedExtra, expected_extra}

-- A key is the text that it is made from.
abbrev keys : Keys
keys = record {
  AuraId = String;
  GrandpaId = String;
  Sr25519Public = String;
  AccountId = String;
  aura_from_string = λ s. some s;
  grandpa_from_string = λ s. some s;
  sr25519_from_string = λ s. some s;
  into_account = λ p. p;
}

abbrev dev_genesis : GenesisConfig keys
dev_genesis =
    testnet_genesis keys [] (("//Alice", "//Alice") ∷ []) "//Alice"
      ("//Alice" ∷ "//Bob" ∷ "//Alice//stash" ∷ "//Bob//stash" ∷ [])

abbrev dev_spec : ChainSpec keys
dev_spec = record {
  name = "Development";
  id = "dev";
  chain_type = development;
  genesis = some dev_genesis;
}

dev_config : development_config keys (some []) ≡ ok dev_spec
unfolding development_config genesis_from_seeds all_from
dev_config = refl

genesis-IsGenesis_example : IsGenesis keys dev_genesis
genesis-IsGenesis_example =
    genesis-IsGenesis keys (some []) dev_spec dev_genesis (inl dev_config) refl

-- A payload is the pair of its parts, and every account signs with its own number.
abbrev pairs : Extrinsics
pairs = record {
  Era = ℕ × ℕ;
  RuntimeCall = ℕ;
  Public = ℕ;
  Signature = ℕ;
  RawPayload = ℕ × SignedExtra (ℕ × ℕ);
  mortal = λ period current. (period, current);
  new_payload = λ c e. some (c, e);
  sign = λ p public. some public;
  deconstruct = λ p. p;
}

abbrev sent : ℕ × (String × ℕ × SignedExtra (ℕ × ℕ))
sent = (3, ("Alice", 7, expected_extra pairs 20 1))

-- Without the runtime's binary the built-in chains are errors, and any other id is a file.
specs :
    (load_spec keys (λ path. err "no such file") none dev_id ≡ err "Development wasm not available")
    × (load_spec keys (λ path. err "no such file") none local_id
        ≡ err "Development wasm not available")
    × (load_spec keys (λ path. err "no such file") none [] ≡ err "Development wasm not available")
    × (load_spec keys (λ path. err "no such file") none (b'd' ∷ []) ≡ err "no such file")
unfolding load_spec development_config local_testnet_config
specs = (refl, refl, refl, refl)

dev_loaded : load_spec keys (λ path. err "no such file") (some []) dev_id ≡ ok dev_spec
unfolding load_spec development_config genesis_from_seeds all_from
dev_loaded = refl
