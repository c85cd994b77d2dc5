-- ===== src/Node/Genesis.antt =====
-- What the two built-in chain specifications agree on, and the pallet on the chain they start.
use Prim.Native.String.{String}
use text.Mathlib.Text.{◌==◌ as str_eq}
use gas_leap.Base.{
  ℕ, ◌*◌, ◌^◌, ◌≡◌, refl, ap, List, [], ◌∷◌, ◌++◌, map, Bool, true, Bool-cases, inl, inr, ◌||◌,
  Option, none, some, Result, ok, arith, length,
}
use gas_leap.Base.Panics.{◌>>=◌}
use gas_leap.Runtime.{existential_deposit}
use gas_leap.Node.ChainSpec.{
  Crates, GenesisConfig, ChainSpec, get_account_id_from_seed, get_collator_keys_from_seed,
  testnet_genesis, collators, accounts, endowed_seeds, genesis_of, development_config,
  local_testnet_config, load_spec,
}

>>=-eq-some :
    {A B : Type 0} (m : Option A) (f : A → Option B) {b : B}
    → (m >>= f) ≡ some b
    → (a : A) × (m ≡ some a) × (f a ≡ some b)
>>=-eq-some none f h = cc
>>=-eq-some (some a) f h = (a, refl, h)

module _ (crates : Crates) where
  -- The collators of some seeds are accounts of these seeds.
  collators-accounts :
      (seeds : List String) (invulnerables : List (ℕ × ℕ))
      → collators crates seeds ≡ some invulnerables
      → accounts crates seeds ≡ some (map (λ (acc, aura). acc) invulnerables)
  unfolding collators accounts
  collators-accounts [] invulnerables h = ground arith
  collators-accounts (seed ∷ seeds) invulnerables h =
      let (acc, a, h') = >>=-eq-some (get_account_id_from_seed crates seed) _ h in
      let (aura, k, h'') = >>=-eq-some (get_collator_keys_from_seed crates seed) _ h' in
      let (rest, r, e) = >>=-eq-some (collators crates seeds) _ h'' in
      ground (arith, collators-accounts seeds rest r)

  accounts-append :
      (seeds seeds' : List String) (accs : List ℕ) (l : List ℕ)
      → accounts crates (seeds ++ seeds') ≡ some l
      → accounts crates seeds ≡ some accs
      → (rest : List ℕ) × (l ≡ accs ++ rest)
  unfolding accounts
  accounts-append [] seeds' accs l h k = (l, ground arith)
  accounts-append (seed ∷ seeds) seeds' accs l h k =
      let (acc, a, h') = >>=-eq-some (get_account_id_from_seed crates seed) _ h in
      let (l', r, e) = >>=-eq-some (accounts crates (seeds ++ seeds')) _ h' in
      let (acc', a', k') = >>=-eq-some (get_account_id_from_seed crates seed) _ k in
      let (accs', r', e') = >>=-eq-some (accounts crates seeds) _ k' in
      let (rest, f) = accounts-append seeds seeds' accs' l' r r' in (rest, ground arith)

  length-accounts :
      (seeds : List String) (l : List ℕ) → accounts crates seeds ≡ some l → length l ≡ length seeds
  unfolding accounts
  length-accounts [] l h = ground arith
  length-accounts (seed ∷ seeds) l h =
      let (acc, a, h') = >>=-eq-some (get_account_id_from_seed crates seed) _ h in
      let (rest, r, e) = >>=-eq-some (accounts crates seeds) _ h' in
      ground (arith, length-accounts seeds rest r)

abbrev pub keys_of : {K V : Type 0} → List (K × V) → List K
keys_of = map (λ (k, v). k)

-- The accounts of session keys.
abbrev pub owners_of : List (ℕ × ℕ × ℕ) → List ℕ
owners_of = map (λ (acc, validator, aura). acc)

-- Every one of these accounts has `amount`.
abbrev pub AllHold : ℕ → List (ℕ × ℕ) → Type 0
AllHold amount [] = Unit
AllHold amount ((who, a) ∷ l) = (a ≡ amount) × AllHold amount l

-- A genesis in order, for a chain specification that names the parachain `para_id`.
pub record IsSound (para_id : ℕ) (g : GenesisConfig) : Type 0 where
  pub parachain : g.parachain_id ≡ para_id
  -- the collators are the first of the endowed accounts, and sudo is the first collator
  pub endowed : (rest : List ℕ) × (keys_of g.balances ≡ g.invulnerables ++ rest)
  pub sudo :
      (who : ℕ) × (others : List ℕ) × (g.invulnerables ≡ who ∷ others) × (g.sudo_key ≡ some who)
  pub keyed : owners_of g.keys ≡ g.invulnerables
  pub funds : AllHold (2 ^ 60) g.balances
  pub twelve : length g.balances ≡ 12
  pub bond : g.candidacy_bond ≡ 16 * existential_deposit

AllHold-map : (amount : ℕ) (l : List ℕ) → AllHold amount (map (λ k. (k, amount)) l)
AllHold-map amount [] = tt
AllHold-map amount (k ∷ l) = (refl, AllHold-map amount l)

keys_of-map : (amount : ℕ) (l : List ℕ) → keys_of (map (λ k. (k, amount)) l) ≡ l
keys_of-map amount [] = refl
keys_of-map amount (k ∷ l) = ap (λ r. k ∷ r) (keys_of-map amount l)

length-map : (amount : ℕ) (l : List ℕ) → length {A = ℕ × ℕ} (map (λ k. (k, amount)) l) ≡ length l
length-map amount [] = refl
length-map amount (k ∷ l) = omega (arith, length-map amount l)

keys-collators :
    (l : List (ℕ × ℕ))
    → owners_of (map (λ (acc, aura). (acc, acc, aura)) l) ≡ map (λ (acc, aura). acc) l
keys-collators [] = refl
keys-collators ((acc, aura) ∷ l) = ap (λ r. acc ∷ r) (keys-collators l)

module _ (crates : Crates) where
  prefix_accounts :
      (everyone seeds rest : List String) (accs l : List ℕ)
      → everyone ≡ seeds ++ rest
      → accounts crates everyone ≡ some l
      → accounts crates seeds ≡ some accs
      → (left : List ℕ) × (l ≡ accs ++ left)
  prefix_accounts everyone seeds rest accs l e h k =
      accounts-append crates seeds rest accs l (rw e at h) k

  first_account :
      (seed : String) (seeds : List String) (who : ℕ) (accs : List ℕ)
      → get_account_id_from_seed crates seed ≡ some who
      → accounts crates (seed ∷ seeds) ≡ some accs
      → (others : List ℕ) × (accs ≡ who ∷ others)
  unfolding accounts
  first_account seed seeds who accs a h =
      let (acc, a', h') = >>=-eq-some (get_account_id_from_seed crates seed) _ h in
      let (rest, r, e) = >>=-eq-some (accounts crates seeds) _ h' in (rest, ground arith)

  genesis_of-IsSound :
      (more rest : List String) (g : GenesisConfig)
      → endowed_seeds crates ≡ ("Alice" ∷ more) ++ rest
      → genesis_of crates ("Alice" ∷ more) ≡ some g
      → IsSound 1000 g
  unfolding genesis_of testnet_genesis
  genesis_of-IsSound more rest g split h =
      let (inv, c, h') = >>=-eq-some (collators crates ("Alice" ∷ more)) _ h in
      let (accs, a, h'') = >>=-eq-some (accounts crates (endowed_seeds crates)) _ h' in
      let (code, w, h3) = >>=-eq-some crates.wasm_binary _ h'' in
      let (sudo, s, e) = >>=-eq-some (get_account_id_from_seed crates "Alice") _ h3 in
      let known = collators-accounts crates ("Alice" ∷ more) inv c in
      let (others, o) = first_account "Alice" more sudo _ s known in
      let (left, p) =
        prefix_accounts (endowed_seeds crates) ("Alice" ∷ more) rest (map (λ (acc, aura). acc) inv)
          accs split a known in
      let held : g.balances ≡ map (λ k. (k, 2 ^ 60)) accs = ground arith in
      record {
        parachain = ground arith;
        endowed = (left, ground (arith, keys_of-map (2 ^ 60) accs));
        sudo = (sudo, others, ground arith, ground arith);
        keyed = ground (arith, keys-collators inv);
        funds = rw held (AllHold-map (2 ^ 60) accs);
        twelve =
            ground (
              arith,
              length-map (2 ^ 60) accs,
              length-accounts crates (endowed_seeds crates) accs a,
            );
        bond = ground arith;
      }

-- The ids of the built-in specifications.
abbrev pub is_built_in : String → Bool
is_built_in id = str_eq id "dev" || str_eq id "" || str_eq id "local"

module _ (crates : Crates) (from_json_file : String → Result String ChainSpec) where
  -- Whatever keys the seeds have, a built-in specification whose genesis can be built has one in
  -- order: the parachain id is the one that the specification names; the collators are the first
  -- endowed accounts, have session keys and no one else has; sudo is the first collator; twelve
  -- accounts are endowed, each with 2 ^ 60; the bond is 16 existential deposits.
  pub built_in-IsSound :
      (id : String) (spec : ChainSpec) (g : GenesisConfig)
      → is_built_in id ≡ true
      → load_spec crates from_json_file id ≡ ok spec
      → spec.genesis ≡ some g
      → IsSound spec.extensions.para_id g
  unfolding load_spec development_config local_testnet_config
  built_in-IsSound id spec g b h e = elim (Bool-cases (str_eq id "dev")) [
    | inl dev ↦
        let same : spec ≡ development_config crates = ground arith in
        let made : genesis_of crates ("Alice" ∷ []) ≡ some g = ground arith in
        rw same (genesis_of-IsSound crates [] _ g refl made)
    | inr other ↦
        let same : spec ≡ local_testnet_config crates = ground arith in
        let made : genesis_of crates ("Alice" ∷ "Bob" ∷ []) ≡ some g = ground arith in
        rw same (genesis_of-IsSound crates ("Bob" ∷ []) _ g refl made)
  ]
