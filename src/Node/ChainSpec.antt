-- ===== src/Node/ChainSpec.antt =====
-- node/src/chain_spec.rs, and `load_spec` of node/src/command.rs.
use Prim.Native.String.{String, ◌++◌}
use text.Mathlib.Text.{◌==◌ as str_eq}
use gas_leap.Base.{
  ℕ, ◌*◌, ◌^◌, List, [], ◌∷◌, map, ◌||◌, Option, none, some, Result, ok, if◌then◌else◌,
}
use gas_leap.Base.Panics.{◌>>=◌}
use gas_leap.Runtime.{existential_deposit}

-- What other crates give: sr25519 keys from a secret URI (nothing for one that is not valid) and
-- the account of a key, the runtime's code, and `xcm::prelude::XCM_VERSION`. `None` for the code is
-- a build without the WASM binary.
pub record Crates : Type 0 where
  pub from_string : String → Option ℕ
  pub into_account : ℕ → ℕ
  pub wasm_binary : Option (List ℕ)
  pub xcm_version : ℕ

pub record GenesisConfig : Type 0 where
  pub code : List ℕ
  pub balances : List (ℕ × ℕ)
  pub parachain_id : ℕ
  pub invulnerables : List ℕ
  pub candidacy_bond : ℕ
  -- account id, validator id, session keys
  pub keys : List (ℕ × ℕ × ℕ)
  pub safe_xcm_version : Option ℕ
  pub sudo_key : Option ℕ

pub data ChainType : Type 0 where
  development local : ChainType

pub record Properties : Type 0 where
  pub token_symbol : String
  pub token_decimals : ℕ
  pub ss58_format : ℕ

pub record Extensions : Type 0 where
  pub relay_chain : String
  pub para_id : ℕ

-- Boot nodes, telemetry and fork id are empty in both specifications. The genesis is what its
-- closure returns.
pub record ChainSpec : Type 0 where
  pub name : String
  pub id : String
  pub chain_type : ChainType
  pub genesis : Option GenesisConfig
  pub protocol_id : Option String
  pub properties : Properties
  pub extensions : Extensions

abbrev pub properties : Properties
properties = record { token_symbol = "UNIT"; token_decimals = 12; ss58_format = 42 }

module _ (crates : Crates) where
  -- The public key of the pair of a seed; a seed that is not valid panics.
  unfoldable pub get_from_seed : String → Option ℕ
  get_from_seed seed = crates.from_string ("//" ++ seed)

  unfoldable pub get_collator_keys_from_seed : String → Option ℕ
  unfolding get_from_seed
  get_collator_keys_from_seed seed = get_from_seed seed

  unfoldable pub get_account_id_from_seed : String → Option ℕ
  unfolding get_from_seed
  get_account_id_from_seed seed = do key ← get_from_seed seed; some (crates.into_account key)

  -- `SessionKeys { aura: keys }`
  abbrev pub gasleap_session_keys : ℕ → ℕ
  gasleap_session_keys keys = keys

  unfoldable pub testnet_genesis : List (ℕ × ℕ) → List ℕ → ℕ → Option GenesisConfig
  unfolding get_account_id_from_seed
  testnet_genesis invulnerables endowed_accounts id = do
    code ← crates.wasm_binary
    sudo ← get_account_id_from_seed "Alice"
    some (record {
      code = code;
      balances = map (λ k. (k, 2 ^ 60)) endowed_accounts;
      parachain_id = id;
      invulnerables = map (λ (acc, aura). acc) invulnerables;
      candidacy_bond = existential_deposit * 16;
      keys = map (λ (acc, aura). (acc, acc, gasleap_session_keys aura)) invulnerables;
      safe_xcm_version = some crates.xcm_version;
      sudo_key = some sudo;
    })

  -- The `vec!` of collators, and that of endowed accounts, over their seeds.
  unfoldable pub collators : List String → Option (List (ℕ × ℕ))
  unfolding get_account_id_from_seed get_collator_keys_from_seed
  collators [] = some []
  collators (seed ∷ seeds) = do
    acc ← get_account_id_from_seed seed
    aura ← get_collator_keys_from_seed seed
    rest ← collators seeds
    some ((acc, aura) ∷ rest)

  unfoldable pub accounts : List String → Option (List ℕ)
  unfolding get_account_id_from_seed
  accounts [] = some []
  accounts (seed ∷ seeds) = do
    acc ← get_account_id_from_seed seed
    rest ← accounts seeds
    some (acc ∷ rest)

  abbrev pub endowed_seeds : List String
  endowed_seeds =
      "Alice" ∷ "Bob" ∷ "Charlie" ∷ "Dave" ∷ "Eve" ∷ "Ferdie" ∷ "Alice//stash" ∷ "Bob//stash"
      ∷ "Charlie//stash" ∷ "Dave//stash" ∷ "Eve//stash" ∷ "Ferdie//stash" ∷ []

  -- The body of the closure: the arguments, then the genesis.
  unfoldable pub genesis_of : List String → Option GenesisConfig
  unfolding collators accounts testnet_genesis
  genesis_of seeds = do
    invulnerables ← collators seeds
    endowed_accounts ← accounts endowed_seeds
    testnet_genesis invulnerables endowed_accounts 1000

  unfoldable pub development_config : ChainSpec
  unfolding genesis_of
  development_config = record {
    name = "GasLeap Development";
    id = "gasleap_dev";
    chain_type = ChainType.development;
    genesis = genesis_of ("Alice" ∷ []);
    protocol_id = none;
    properties = properties;
    extensions = record { relay_chain = "rococo-local"; para_id = 1000 };
  }

  unfoldable pub local_testnet_config : ChainSpec
  unfolding genesis_of
  local_testnet_config = record {
    name = "GasLeap Local Testnet";
    id = "gasleap_local_testnet";
    chain_type = ChainType.local;
    genesis = genesis_of ("Alice" ∷ "Bob" ∷ []);
    protocol_id = some "gasleap-local";
    properties = properties;
    extensions = record { relay_chain = "rococo-local"; para_id = 1000 };
  }

  -- `from_json_file` reads any other id as a path; its error is a text.
  unfoldable pub load_spec : (String → Result String ChainSpec) → String → Result String ChainSpec
  unfolding development_config local_testnet_config
  load_spec from_json_file id =
      if str_eq id "dev"
      then ok development_config
      else if str_eq id "" || str_eq id "local"
      then ok local_testnet_config
      else from_json_file id
