-- ===== src/Node/ChainSpec/Genesis.antt =====
-- What the genesis of the two chains holds.
use substrate_node_template.Common.{
  ℕ, suc, ◌*◌, ◌^◌, ◌≤◌, ◌<◌, ◌≡◌, ◌⊎◌, inl, inr, refl, ap, ◌∙◌, String, Option, none, some, List,
  [], ◌∷◌, map, Result, ok, err, arith, length, sum, All, Option-cases,
}
use substrate_node_template.Runtime.{existential_deposit, balance_values, max_authorities}
use substrate_node_template.Node.ChainSpec.{
  Keys, GenesisConfig, ChainSpec, get_account_id_from_seed, authority_keys_from_seed,
  testnet_genesis, all_from, genesis_from_seeds, development_config, local_testnet_config,
}

-- As many keys for blocks as for finality.
authorities-length :
    {A B : Type 0} (xs : List (A × B))
    → length (map {A = A × B} {B = A} (λ x. x.0) xs)
      ≡ length (map {A = A × B} {B = B × ℕ} (λ x. (x.1, 1)) xs)
authorities-length [] = refl
authorities-length (x ∷ xs) = omega (arith, authorities-length xs)

aura-length :
    {A B : Type 0} (xs : List (A × B)) → length (map {A = A × B} {B = A} (λ x. x.0) xs) ≡ length xs
aura-length [] = refl
aura-length (x ∷ xs) = omega (arith, aura-length xs)

length-all_from :
    {A : Type 0} (keys : Keys) (f : String → Option A) (seeds : List String) (xs : List A)
    → all_from keys f seeds ≡ some xs
    → length xs ≡ length seeds
unfolding all_from
length-all_from keys f [] xs e = ground arith
length-all_from keys f (seed ∷ seeds) xs e = elim (Option-cases (all_from keys f seeds)) [
  | inl missing ↦ absurd (ground arith)
  | inr (rest, found) ↦ ground (arith, length-all_from keys f seeds rest found)
]

all_from-cons :
    {A : Type 0} (keys : Keys) (f : String → Option A) (seed : String) (seeds : List String)
    (xs : List A)
    → all_from keys f (seed ∷ seeds) ≡ some xs
    → (x : A) × (ys : List A) × (f seed ≡ some x) × (xs ≡ x ∷ ys) × (length ys ≡ length seeds)
unfolding all_from
all_from-cons keys f seed seeds xs e = elim (Option-cases (f seed)) [
  | inl missing ↦ absurd (ground arith)
  | inr (x, at) ↦ elim (Option-cases (all_from keys f seeds)) [
    | inl missing ↦ absurd (ground arith)
    | inr (ys, found) ↦ (x, ys, at, ground arith, length-all_from keys f seeds ys found)
  ]
]

module _ {A : Type 0} where
  abbrev endowed : List A → List (A × ℕ)
  endowed xs = map (λ k. (k, 2 ^ 60)) xs

  abbrev amounts : List (A × ℕ) → List ℕ
  amounts l = map (λ b. b.1) l

  sum-endowed : (xs : List A) → sum (amounts (endowed xs)) ≡ 2 ^ 60 * length xs
  sum-endowed [] = refl
  sum-endowed (x ∷ xs) = omega (arith, sum-endowed xs)

  All-endowed : (xs : List A) → All (λ b. existential_deposit ≤ b) (amounts (endowed xs))
  All-endowed [] = tt
  All-endowed (x ∷ xs) = (omega arith, All-endowed xs)

module _ (keys : Keys) where
  open keys use {AccountId, AuraId, GrandpaId}

  -- The root key owns the first balance; every balance is an existential deposit or more, and their sum
  -- is a `Balance`; there are as many authorities for blocks as for finality, one at least and at most as
  -- many as the runtime has room for.
  pub record IsGenesis (g : GenesisConfig keys) : Type 0 where
    pub root_funded : (rest : List (AccountId × ℕ)) × (g.balances ≡ (g.sudo_key, 2 ^ 60) ∷ rest)
    pub kept : All (λ b. existential_deposit ≤ b) (amounts g.balances)
    pub supply : sum (amounts g.balances) < balance_values
    pub authorities : length g.aura_authorities ≡ length g.grandpa_authorities
    pub producers : (0 < length g.aura_authorities) × (length g.aura_authorities ≤ max_authorities)

  genesis_parts :
      (wasm : List ℕ) (authorities : List String) (root : String) (accounts : List String)
      (g : GenesisConfig keys)
      → genesis_from_seeds keys wasm authorities root accounts ≡ some g
      → (initial : List (AuraId × GrandpaId)) × (root_key : AccountId) × (xs : List AccountId)
        × (all_from keys (authority_keys_from_seed keys) authorities ≡ some initial)
        × (get_account_id_from_seed keys root ≡ some root_key)
        × (all_from keys (get_account_id_from_seed keys) accounts ≡ some xs)
        × (g ≡ testnet_genesis keys wasm initial root_key xs)
  unfolding genesis_from_seeds
  genesis_parts wasm authorities root accounts g e =
      elim (Option-cases (all_from keys (authority_keys_from_seed keys) authorities)) [
        | inl missing ↦ absurd (ground arith)
        | inr (initial, i) ↦ elim (Option-cases (get_account_id_from_seed keys root)) [
          | inl missing ↦ absurd (ground arith)
          | inr (root_key, r) ↦
              elim (Option-cases (all_from keys (get_account_id_from_seed keys) accounts)) [
                | inl missing ↦ absurd (ground arith)
                | inr (xs, a) ↦ (initial, root_key, xs, i, r, a, ground arith)
              ]
        ]
      ]

  genesis_from_seeds-IsGenesis :
      (wasm : List ℕ) (first : String) (more : List String) (root : String) (rest : List String)
      (g : GenesisConfig keys)
      → suc (length rest) < 2 ^ 68
      → suc (length more) ≤ max_authorities
      → genesis_from_seeds keys wasm (first ∷ more) root (root ∷ rest) ≡ some g
      → IsGenesis g
  unfolding testnet_genesis
  genesis_from_seeds-IsGenesis wasm first more root rest g few fit e =
      let (initial, root_key, xs, i, r, a, made) =
        genesis_parts wasm (first ∷ more) root (root ∷ rest) g e in
      let (x, ys, at, cut, short) =
        all_from-cons keys (get_account_id_from_seed keys) root rest xs a in
      let (z, zs, at', cut', short') =
        all_from-cons keys (authority_keys_from_seed keys) first more initial i in
      let same : x ≡ root_key = ground (arith, at, r) in
      rw (made, cut, cut')
        (record {
          root_funded = (endowed ys, ap (λ k. (k, 2 ^ 60) ∷ endowed ys) same);
          kept = All-endowed (x ∷ ys);
          supply = omega (arith, sum-endowed (x ∷ ys));
          authorities = authorities-length (z ∷ zs);
          producers = (omega arith, omega (arith, aura-length zs, short', fit));
        })

  abbrev genesis_of : Result String (ChainSpec keys) → Option (GenesisConfig keys)
  genesis_of (ok spec) = spec.genesis
  genesis_of (err e) = none

  -- The genesis of the development chain and of the local one, where all seeds are keys: the root key
  -- owns the first balance, every balance is an existential deposit or more, the sum of the balances is
  -- a u128, and there are as many block producers as finality voters, one at least and at most 32, for
  -- which the runtime has room.
  pub genesis-IsGenesis :
      (wasm : Option (List ℕ)) (spec : ChainSpec keys) (g : GenesisConfig keys)
      → (development_config keys wasm ≡ ok spec) ⊎ (local_testnet_config keys wasm ≡ ok spec)
      → spec.genesis ≡ some g
      → IsGenesis g
  unfolding development_config local_testnet_config
  genesis-IsGenesis none spec g h e = absurd (ground arith)
  genesis-IsGenesis (some wasm) spec g (inl h) e =
      genesis_from_seeds-IsGenesis wasm "Alice" [] "Alice"
        ("Bob" ∷ "Alice//stash" ∷ "Bob//stash" ∷ []) g (omega arith) (omega arith)
        (ap (λ r. genesis_of r) h ∙ e)
  genesis-IsGenesis (some wasm) spec g (inr h) e =
      genesis_from_seeds-IsGenesis wasm "Alice" ("Bob" ∷ []) "Alice"
        ("Bob" ∷ "Charlie" ∷ "Dave" ∷ "Eve" ∷ "Ferdie" ∷ "Alice//stash" ∷ "Bob//stash"
          ∷ "Charlie//stash" ∷ "Dave//stash" ∷ "Eve//stash" ∷ "Ferdie//stash" ∷ [])
        g (omega arith) (omega arith) (ap (λ r. genesis_of r) h ∙ e)
