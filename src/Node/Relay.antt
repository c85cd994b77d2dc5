-- ===== src/Node/Relay.antt =====
-- The traits that node/src/command.rs implements for the two command lines: `SubstrateCli` for both,
-- `CliConfiguration` for the relay chain's. Polkadot's command line and the types of its answers are
-- parameters.
use Prim.Native.String.{String, ◌++◌}
use text.Mathlib.Text.{◌==◌ as str_eq}
use gas_leap.Base.{
  ℕ, List, [], ◌∷◌, Bool, true, Option, none, some, Result, ok, ◌≡◌, if◌then◌else◌, arith,
}
use gas_leap.Runtime.{RuntimeVersion, version}
use gas_leap.Node.ChainSpec
use gas_leap.Node.ChainSpec.{ChainSpec, load_spec, development_config, local_testnet_config}
use gas_leap.Node.Genesis.{is_built_in}
use gas_leap.Node.Cli
use gas_leap.Node.Cli.{join, RunCmd, RelayChainCli, Configuration, new}

-- `Spec` is a boxed chain specification.
pub record SubstrateCli (Spec Version : Type 0) : Type 0 where
  pub impl_name : String
  pub impl_version : String
  pub description : String
  pub author : String
  pub support_url : String
  pub copyright_start_year : ℕ
  pub load_spec : String → Result String Spec
  pub native_runtime_version : Spec → Version

-- What the build and the operating system tell: two environment variables, and the program's name.
pub record Build : Type 0 where
  pub impl_version : String
  pub authors : String
  pub executable_name : String

abbrev pub description : Build → String
description build =
    "GasLeap Parachain\n\nThe command-line arguments provided first will be "
    ++ "passed to the parachain node, while the arguments provided after -- will be passed "
    ++ "to the relay chain node.\n\n" ++ build.executable_name
    ++ " <parachain-args> -- <relay-chain-args>"

module _ (build : Build) (crates : ChainSpec.Crates)
    (from_json_file : String → Result String ChainSpec) where
  -- `SubstrateCli for Cli`
  abbrev pub parachain_cli : SubstrateCli ChainSpec RuntimeVersion
  unfolding load_spec
  parachain_cli = record {
    impl_name = "GasLeap Parachain";
    impl_version = build.impl_version;
    description = description build;
    author = build.authors;
    support_url = "https://github.com/gasleap/gasleap/issues/new";
    copyright_start_year = 2023;
    load_spec = load_spec crates from_json_file;
    native_runtime_version = λ spec. version;
  }

-- `polkadot_cli::Cli`: the specification that the command line of these arguments has under an id,
-- and the version of the runtime that runs a specification.
pub record PolkadotCli (Spec Version : Type 0) : Type 0 where
  pub load_spec : List String → String → Result String Spec
  pub native_runtime_version : Spec → Version

-- `SubstrateCli for RelayChainCli`
abbrev pub relay_substrate_cli :
    {Spec Version : Type 0} → Build → PolkadotCli Spec Version → SubstrateCli Spec Version
relay_substrate_cli build polkadot = record {
  impl_name = "GasLeap Parachain";
  impl_version = build.impl_version;
  description = description build;
  author = build.authors;
  support_url = "https://github.com/gasleap/gasleap/issues/new";
  copyright_start_year = 2023;
  load_spec = λ id. polkadot.load_spec (build.executable_name ∷ []) id;
  native_runtime_version = polkadot.native_runtime_version;
}

-- The methods of `CliConfiguration` that command.rs defines and passes on unchanged. `Answer` is any
-- of the types that other crates give.
pub record PassedOn (Error Answer Spec : Type 0) : Type 0 where
  pub shared_params : Answer
  pub import_params : Option Answer
  pub network_params : Option Answer
  pub keystore_params : Option Answer
  pub rpc_http : ℕ → Result Error (Option Answer)
  pub rpc_ipc : Result Error (Option String)
  pub rpc_ws : ℕ → Result Error (Option Answer)
  pub prometheus_config : ℕ → Spec → Result Error (Option Answer)
  pub role : Bool → Result Error Answer
  pub transaction_pool : Bool → Result Error Answer
  pub trie_cache_maximum_size : Result Error (Option ℕ)
  pub rpc_methods : Result Error Answer
  pub rpc_ws_max_connections : Result Error (Option ℕ)
  pub rpc_cors : Bool → Result Error (Option (List String))
  pub default_heap_pages : Result Error (Option ℕ)
  pub force_authoring : Result Error Bool
  pub disable_grandpa : Result Error Bool
  pub max_runtime_instances : Result Error (Option ℕ)
  pub announce_block : Result Error Bool
  pub telemetry_endpoints : Spec → Result Error (Option Answer)
  pub node_name : Result Error String

-- `init` that returns nothing panics.
pub record CliConfiguration (Error Answer Spec : Type 0) : Type 0 where
  pub passed_on : PassedOn Error Answer Spec
  pub base_path : Result Error (Option String)
  pub init : Option (Result Error (Unit {0}))
  pub chain_id : Bool → Result Error String

module _ {Error Answer Spec : Type 0} (answers : RunCmd Error → PassedOn Error Answer Spec) where
  -- `CliConfiguration for RelayChainCli`
  abbrev pub relay_configuration : RelayChainCli Error → CliConfiguration Error Answer Spec
  unfolding Cli.base_path Cli.chain_id
  relay_configuration cli = record {
    passed_on = answers cli.base;
    base_path = Cli.base_path cli;
    init = none;
    chain_id = Cli.chain_id cli;
  }

  -- When the parachain runs a built-in specification and keeps its data at `path`, and Polkadot's own
  -- command line answers, the relay chain's command line answers the chain that its arguments name,
  -- and rococo-local if they name none; and the folder that they name, and `path` joined with polkadot
  -- if they name none.
  pub relay_defaults :
      (parse_from : List String → RunCmd Error) (args : List String) (config : Configuration)
      (crates : ChainSpec.Crates) (from_json_file : String → Result String ChainSpec) (id : String)
      (spec : ChainSpec) (is_dev : Bool) (path own_chain : String) (own_path : Option String)
      → is_built_in id ≡ true
      → load_spec crates from_json_file id ≡ ok spec
      → config.extensions ≡ some spec.extensions
      → config.base_path ≡ some path
      → (parse_from args).chain_id is_dev ≡ ok own_chain
      → (parse_from args).base_path ≡ ok own_path
      → ((relay_configuration (new parse_from config args)).chain_id is_dev
          ≡ ok (if str_eq own_chain "" then "rococo-local" else own_chain))
        × ((relay_configuration (new parse_from config args)).base_path
            ≡ ok (some (elim own_path [ none ↦ join path "polkadot" | some own ↦ own ])))
  unfolding new Cli.base_path Cli.chain_id load_spec development_config local_testnet_config
  relay_defaults parse_from args config crates from_json_file id spec is_dev path own_chain own_path
        b loads chain folder asked_chain asked_path =
      (ground arith, ground arith)
