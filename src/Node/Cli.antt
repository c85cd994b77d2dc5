-- ===== src/Node/Cli.antt =====
-- node/src/cli.rs, and the relay chain's command line in node/src/command.rs. What Polkadot's own
-- command line answers is a parameter.
use Prim.Native.String.{String, ◌++◌, len, slice}
use text.Mathlib.Text.{◌==◌ as str_eq}
use gas_leap.Base.{ℕ, ◌-◌, ◌||◌, List, Bool, Option, none, some, Result, ok, if◌then◌else◌}
use gas_leap.Base.Results.{◌>>=◌}
use gas_leap.Node.ChainSpec.{Extensions}

-- The sub-commands of `frame_benchmarking_cli` that `run` names, and the others.
pub data BenchmarkCmd : Type 0 where
  pallet block storage machine : BenchmarkCmd
  other : ℕ → BenchmarkCmd

pub data Subcommand : Type 0 where
  key build_spec check_block export_blocks export_state : Subcommand
  import_blocks purge_chain revert : Subcommand
  benchmark : BenchmarkCmd → Subcommand
  try_runtime : Subcommand
  -- with the `--chain` argument
  export_genesis_state export_genesis_wasm : Option String → Subcommand

pub record Cli : Type 0 where
  pub subcommand : Option Subcommand
  pub no_hardware_benchmarks : Bool
  pub relay_chain_args : List String

pub record Features : Type 0 where
  pub runtime_benchmarks : Bool
  pub try_runtime : Bool

-- What `run` and the service read of a configuration.
pub record Configuration : Type 0 where
  pub extensions : Option Extensions
  pub base_path : Option String
  pub database_path : Option String
  pub is_authority : Bool
  pub telemetry_endpoints : Option (List String)
  pub offchain_worker : Bool

-- `polkadot_cli::RunCmd`, as parsed from the arguments after `--`: what `RelayChainCli` asks it.
pub record RunCmd (Error : Type 0) : Type 0 where
  pub base_path : Result Error (Option String)
  pub chain_id : Bool → Result Error String

pub record RelayChainCli (Error : Type 0) : Type 0 where
  pub base : RunCmd Error
  pub chain_id : Option String
  pub base_path : Option String

-- `path.join(name)` for a relative name: a separator in between, unless the path is empty or ends with
-- one.
abbrev pub join : (path name : String) → String
join path name =
    if str_eq path "" || str_eq (slice path (len path - 1) (len path)) "/"
    then path ++ name
    else path ++ "/" ++ name

module _ {Error : Type 0} (parse_from : List String → RunCmd Error) where
  -- `RelayChainCli::new`
  unfoldable pub new : Configuration → List String → RelayChainCli Error
  new para_config relay_chain_args =
      let extension = para_config.extensions in
      let chain_id : Option String = elim extension [ none ↦ none | some e ↦ some e.relay_chain ] in
      let base_path : Option String = elim para_config.base_path [
        | none ↦ none
        | some x ↦ some (join x "polkadot")
      ] in
      record { base_path = base_path; chain_id = chain_id; base = parse_from relay_chain_args }

module _ {Error : Type 0} (cli : RelayChainCli Error) where
  -- `CliConfiguration::base_path` and `chain_id` of `RelayChainCli`.
  unfoldable pub base_path : Result Error (Option String)
  base_path = do
    own ← cli.base.base_path
    ok (elim own [ some path ↦ some path | none ↦ cli.base_path ])

  unfoldable pub chain_id : Bool → Result Error String
  chain_id is_dev = do
    chain_id ← cli.base.chain_id is_dev
    ok (if str_eq chain_id "" then (elim cli.chain_id [ none ↦ "" | some id ↦ id ]) else chain_id)

-- `DefaultConfigurationValues for RelayChainCli`
abbrev pub p2p_listen_port : ℕ
p2p_listen_port = 30334

abbrev pub rpc_ws_listen_port : ℕ
rpc_ws_listen_port = 9945

abbrev pub rpc_http_listen_port : ℕ
rpc_http_listen_port = 9934

abbrev pub prometheus_listen_port : ℕ
prometheus_listen_port = 9616
