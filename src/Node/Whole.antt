-- ===== src/Node/Whole.antt =====
-- A plain run of the node, from its chain specification to its service.
use Prim.Native.String.{String}
use gas_leap.Base.{err, List, [], ◌∷◌, ℕ, ◌≡◌, Option, none, some, Result, ok, if◌then◌else◌}
use gas_leap.Base.Results.{map_err}
use gas_leap.Node.ChainSpec
use gas_leap.Node.ChainSpec.{ChainSpec}
use gas_leap.Node.Cli.{Cli, Features, Configuration}
use gas_leap.Node.Command.{System, polkadot_configuration}
use gas_leap.Node.Service
use gas_leap.Node.Service.{
  StartError, start_parachain_node, Step, collator_started, full_node_started, network_started,
  tasks_spawned, spawned, offchain_workers_runner, telemetry, has_telemetry,
}
use gas_leap.Node.Service.Starting.{when, reported}

-- A node that is started: what the start has spawned and started, the latest first.
abbrev pub handed :
    {Error : Type 0}
    → Result (StartError Error) (Unit {0}) × List Step
    → Result (StartError Error) (List Step)
handed (ok done, steps) = ok steps
handed (err e, steps) = err e

module _ {Error Parts HwBench : Type 0} (sys : System Error Parts HwBench (List Step))
    (crates : Service.Crates Error HwBench) (wrap : StartError Error → Error) where
  -- `run` starts the service of this node; the task manager holds what the service has started.
  abbrev pub Serves : Type 0
  Serves =
      (config polkadot_config : Configuration) (para_id : ℕ) (hwbench : Option HwBench)
      → sys.start_parachain_node config polkadot_config para_id hwbench
        ≡ map_err wrap (handed (start_parachain_node crates config polkadot_config para_id hwbench))

  -- What the machine answers to a plain run with this configuration.
  pub record IsOnline (features : Features) (cli : Cli) (config polkadot_config : Configuration)
      (spec : ChainSpec) : Type 0 where
    pub plain : cli.subcommand ≡ none
    pub runner : sys.create_runner none ≡ ok config
    pub chain : config.extensions ≡ some spec.extensions
    pub genesis : (block : ℕ) × (sys.generate_genesis_block config ≡ ok block)
    pub relay : polkadot_configuration sys features cli config ≡ ok polkadot_config

  -- What a start leaves where every call succeeds, the latest first.
  abbrev pub started : Configuration → Option HwBench → List Step
  started config hwbench =
      (if config.is_authority then collator_started else full_node_started)
      ∷ network_started
      ∷ reported crates config hwbench (
          tasks_spawned
          ∷ when config.offchain_worker (spawned offchain_workers_runner)
              (when (has_telemetry crates config) (spawned telemetry) []))
