-- ===== src/Node/Command.antt =====
-- `run` of node/src/command.rs, and `main` of node/src/main.rs. What Substrate, Cumulus and Polkadot
-- do is a parameter, each call with its result; the features of the build are two flags.
pub mod Running
use Prim.Native.String.{String}
use gas_leap.Base.{ℕ, List, ◌∷◌, Bool, Option, none, some, Result, ok, err, if◌then◌else◌}
use gas_leap.Base.Results.{◌>>=◌, ◌>>◌, map_err}
use gas_leap.Node.ChainSpec.{ChainSpec}
use gas_leap.Node.Cli.{
  BenchmarkCmd, pallet, block, storage, machine, other, Subcommand, key, Cli, Features,
  Configuration, RunCmd, RelayChainCli, new,
}

-- The errors of `run`: those of the calls, and its own texts with what they quote.
pub data RunError (Error : Type 0) : Type 0 where
  passed_on : Error → RunError Error
  relay_chain_argument genesis_block : Error → RunError Error
  no_benchmarks no_storage_benchmarks unsupported_benchmark no_try_runtime : RunError Error
  no_parachain_id : RunError Error

-- What a command runs with: `cmd.run(…)` and its arguments.
pub data Task (Parts : Type 0) : Type 0 where
  build_spec : Configuration → Task Parts
  check_block : Parts → Task Parts
  export_blocks export_state : Parts → Configuration → Task Parts
  import_blocks revert : Parts → Task Parts
  purge_chain : (config polkadot_config : Configuration) → Task Parts
  export_genesis_state export_genesis_wasm : ChainSpec → Task Parts
  bench_pallet : Configuration → Task Parts
  bench_block : Parts → Task Parts
  bench_storage : Configuration → Parts → Task Parts
  bench_machine try_runtime : Configuration → Task Parts

-- What `run` calls. `Parts` is what `new_partial` makes, and `Manager` the task manager of a node that
-- is started; `new_partial` and `start_parachain_node` are the service,
-- which Node/Whole puts in.
pub record System (Error Parts HwBench Manager : Type 0) : Type 0 where
  -- of a command, or of the normalized arguments of a plain run
  pub create_runner : Option Subcommand → Result Error Configuration
  pub new_partial : Configuration → Result Error Parts
  pub task_manager : Configuration → Result Error (Unit {0})
  pub execute : Task Parts → Result Error (Unit {0})
  pub load_spec : String → Result Error ChainSpec
  pub executable_name : String
  pub parse_from : List String → RunCmd Error
  pub create_configuration : RelayChainCli Error → Result Error Configuration
  pub generate_genesis_block : Configuration → Result Error ℕ
  pub gather_hwbench : String → HwBench
  pub start_parachain_node :
      (config polkadot_config : Configuration) (id : ℕ) → Option HwBench → Result Error Manager
  -- the end of `run_node_until_exit`, which runs what the manager holds
  pub run_until_exit : Manager → Result Error (Unit {0})

module _ {Error Parts HwBench Manager : Type 0} (sys : System Error Parts HwBench Manager)
    (features : Features) (cli : Cli) where
  -- `?`
  abbrev pub try : {A : Type 0} → Result Error A → Result (RunError Error) A
  try = map_err passed_on

  abbrev pub execute : Task Parts → Result (RunError Error) (Unit {0})
  execute task = try (sys.execute task)

  abbrev pub relay_chain_cli : Configuration → RelayChainCli Error
  unfolding new
  relay_chain_cli config = new sys.parse_from config (sys.executable_name ∷ cli.relay_chain_args)

  abbrev pub polkadot_configuration : Configuration → Result (RunError Error) Configuration
  unfolding new
  polkadot_configuration config =
      map_err relay_chain_argument (sys.create_configuration (relay_chain_cli config))

  -- `cmd.shared_params.chain.clone().unwrap_or_default()`
  abbrev pub chain_or_default : Option String → String
  chain_or_default none = ""
  chain_or_default (some chain) = chain

  unfoldable pub run_benchmark : BenchmarkCmd → Configuration → Result (RunError Error) (Unit {0})
  run_benchmark pallet config =
      if features.runtime_benchmarks then execute (Task.bench_pallet config) else err no_benchmarks
  run_benchmark block config = do
    parts ← try (sys.new_partial config)
    execute (Task.bench_block parts)
  run_benchmark storage config =
      if features.runtime_benchmarks
      then (do parts ← try (sys.new_partial config); execute (Task.bench_storage config parts))
      else err no_storage_benchmarks
  run_benchmark machine config = execute (Task.bench_machine config)
  run_benchmark (other n) config = err unsupported_benchmark

  -- `then_some(…).flatten()`: the benchmarks are gathered before the test, whatever it says.
  abbrev pub hwbench_of : Configuration → Option HwBench
  hwbench_of config =
      let gathered : Option HwBench = elim config.database_path [
        | none ↦ none
        | some path ↦ some (sys.gather_hwbench path)
      ] in
      if cli.no_hardware_benchmarks then none else gathered

  -- The last arm: a plain run of the node.
  unfoldable pub run_node : Result (RunError Error) (Unit {0})
  run_node = do
    config ← try (sys.create_runner none)
    let hwbench = hwbench_of config
    para_id ← (elim config.extensions [ none ↦ err no_parachain_id | some e ↦ ok e.para_id ])
    genesis ← map_err genesis_block (sys.generate_genesis_block config)
    polkadot_config ← polkadot_configuration config
    manager ← try (sys.start_parachain_node config polkadot_config para_id hwbench)
    try (sys.run_until_exit manager)

  -- The arms of the `match` on a sub-command; `Subcommand::Key` has none.
  unfoldable pub arm : Subcommand → Option (Result (RunError Error) (Unit {0}))
  unfolding run_benchmark
  arm key = none
  arm Subcommand.build_spec = some (do
    config ← try (sys.create_runner (some Subcommand.build_spec))
    execute (Task.build_spec config))
  arm Subcommand.check_block = some (do
    config ← try (sys.create_runner (some Subcommand.check_block))
    parts ← try (sys.new_partial config)
    execute (Task.check_block parts))
  arm Subcommand.export_blocks = some (do
    config ← try (sys.create_runner (some Subcommand.export_blocks))
    parts ← try (sys.new_partial config)
    execute (Task.export_blocks parts config))
  arm Subcommand.export_state = some (do
    config ← try (sys.create_runner (some Subcommand.export_state))
    parts ← try (sys.new_partial config)
    execute (Task.export_state parts config))
  arm Subcommand.import_blocks = some (do
    config ← try (sys.create_runner (some Subcommand.import_blocks))
    parts ← try (sys.new_partial config)
    execute (Task.import_blocks parts))
  arm Subcommand.revert = some (do
    config ← try (sys.create_runner (some Subcommand.revert))
    parts ← try (sys.new_partial config)
    execute (Task.revert parts))
  arm Subcommand.purge_chain = some (do
    config ← try (sys.create_runner (some Subcommand.purge_chain))
    polkadot_config ← polkadot_configuration config
    execute (Task.purge_chain config polkadot_config))
  arm (Subcommand.export_genesis_state chain) = some (do
    config ← try (sys.create_runner (some (Subcommand.export_genesis_state chain)))
    spec ← try (sys.load_spec (chain_or_default chain))
    execute (Task.export_genesis_state spec))
  arm (Subcommand.export_genesis_wasm chain) = some (do
    config ← try (sys.create_runner (some (Subcommand.export_genesis_wasm chain)))
    spec ← try (sys.load_spec (chain_or_default chain))
    execute (Task.export_genesis_wasm spec))
  arm (Subcommand.benchmark cmd) = some (do
    config ← try (sys.create_runner (some (Subcommand.benchmark cmd)))
    run_benchmark cmd config)
  arm Subcommand.try_runtime =
      if features.try_runtime
      then some (do
        config ← try (sys.create_runner (some Subcommand.try_runtime))
        try (sys.task_manager config)
        execute (Task.try_runtime config))
      else some (err no_try_runtime)

  unfoldable pub run : Option (Result (RunError Error) (Unit {0}))
  unfolding arm run_node
  run = elim cli.subcommand [ none ↦ some run_node | some cmd ↦ arm cmd ]

  -- `main` of node/src/main.rs, which is `run`.
  abbrev pub main : Option (Result (RunError Error) (Unit {0}))
  main = run
