-- ===== src/Node/Command/Running.antt =====
-- What `run` does on every sub-command.
use gas_leap.Base.{◌≡◌, ◌↔◌, refl, Bool, true, false, Option, none, some, ok, err, arith, ap}
use gas_leap.Node.Cli.{
  pallet, block, storage, machine, other, Subcommand, key, Cli, Features, Configuration,
}
use gas_leap.Node.Command.{passed_on, System, arm, run_benchmark, run_node, run}

-- The commands that work on the node's database, in a build with these features.
abbrev pub uses_parts : Features → Subcommand → Bool
uses_parts features Subcommand.check_block = true
uses_parts features Subcommand.export_blocks = true
uses_parts features Subcommand.export_state = true
uses_parts features Subcommand.import_blocks = true
uses_parts features Subcommand.revert = true
uses_parts features (Subcommand.benchmark block) = true
uses_parts features (Subcommand.benchmark storage) = features.runtime_benchmarks
uses_parts features _ = false

module _ {Error Parts HwBench Manager : Type 0} (sys : System Error Parts HwBench Manager)
    (features : Features) (cli : Cli) where
  arm-key : (cmd : Subcommand) → arm sys features cli cmd ≡ none → cmd ≡ key
  unfolding arm
  arm-key key h = refl
  arm-key Subcommand.build_spec h = cc
  arm-key Subcommand.check_block h = cc
  arm-key Subcommand.export_blocks h = cc
  arm-key Subcommand.export_state h = cc
  arm-key Subcommand.import_blocks h = cc
  arm-key Subcommand.purge_chain h = cc
  arm-key Subcommand.revert h = cc
  arm-key (Subcommand.export_genesis_state chain) h = cc
  arm-key (Subcommand.export_genesis_wasm chain) h = cc
  arm-key (Subcommand.benchmark cmd) h = cc
  arm-key Subcommand.try_runtime h = ground arith

  chosen-key :
      (chosen : Option Subcommand)
      → elim chosen [
        | none ↦ some (run_node sys features cli)
        | some cmd ↦ arm sys features cli cmd
      ]
        ≡ none
      → chosen ≡ some key
  chosen-key none h = cc
  chosen-key (some cmd) h = ap some (arm-key cmd h)

  -- `run` has an arm for a plain run and for every sub-command but `Key`.
  run-none_iff : (run sys features cli ≡ none) ↔ (cli.subcommand ≡ some key)
  unfolding run arm
  run-none_iff = (chosen-key cli.subcommand, λ h. ground arith)

  arm_needs_parts :
      {config : Configuration} {e : Error} (cmd : Subcommand)
      → sys.create_runner (some cmd) ≡ ok config
      → sys.new_partial config ≡ err e
      → uses_parts features cmd ≡ true
      → arm sys features cli cmd ≡ some (err (passed_on e))
  unfolding arm run_benchmark
  arm_needs_parts key runner partial uses = cc
  arm_needs_parts Subcommand.build_spec runner partial uses = cc
  arm_needs_parts Subcommand.purge_chain runner partial uses = cc
  arm_needs_parts (Subcommand.benchmark pallet) runner partial uses = cc
  arm_needs_parts (Subcommand.benchmark machine) runner partial uses = cc
  arm_needs_parts (Subcommand.benchmark (other n)) runner partial uses = cc
  arm_needs_parts Subcommand.try_runtime runner partial uses = cc
  arm_needs_parts (Subcommand.export_genesis_state chain) runner partial uses = cc
  arm_needs_parts (Subcommand.export_genesis_wasm chain) runner partial uses = cc
  arm_needs_parts Subcommand.check_block runner partial uses = ground arith
  arm_needs_parts Subcommand.export_blocks runner partial uses = ground arith
  arm_needs_parts Subcommand.export_state runner partial uses = ground arith
  arm_needs_parts Subcommand.import_blocks runner partial uses = ground arith
  arm_needs_parts Subcommand.revert runner partial uses = ground arith
  arm_needs_parts (Subcommand.benchmark block) runner partial uses = ground arith
  arm_needs_parts (Subcommand.benchmark storage) runner partial uses = ground arith

  -- For a command that works on the node's database, in a build with these features, and a runner that
  -- is created, `run` fails with the error of `new_partial` where that fails.
  run_needs_parts :
      {config : Configuration} {e : Error} (cmd : Subcommand)
      → cli.subcommand ≡ some cmd
      → sys.create_runner (some cmd) ≡ ok config
      → sys.new_partial config ≡ err e
      → uses_parts features cmd ≡ true
      → run sys features cli ≡ some (err (passed_on e))
  unfolding run
  run_needs_parts cmd chosen runner partial uses = ground arith
