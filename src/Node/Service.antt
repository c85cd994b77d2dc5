-- ===== src/Node/Service.antt =====
-- node/src/service.rs: a node is started step by step, and the steps are kept, the latest first. What
-- Substrate, Cumulus and Polkadot do is a parameter, each call with its result.
pub mod Runs
pub mod Starting
pub mod Success
use Prim.Native.String.{String}
use gas_leap.Base.{
  ℕ, List, [], ◌∷◌, Bool, true, false, not, ◌&&◌, Option, none, some, Result, ok, err,
  if◌then◌else◌, Action, pure, raise, modify, lift, ◌>>=◌, ◌>>◌,
}
use gas_leap.Base.Results.{map_err}
use gas_leap.Node.Cli.{Configuration}

-- The tasks that are spawned under a name of their own.
pub data Spawned : Type 0 where
  telemetry offchain_workers_runner telemetry_hwbench : Spawned

pub data Step : Type 0 where
  spawned : Spawned → Step
  tasks_spawned hwbench_printed hardware_warned : Step
  network_started collator_started full_node_started : Step

-- How a start ends early: with `sc_service::Error` of a call, or one of the two texts round it; or, no
-- error, with the panic of the `expect` of the collator's key.
pub data StartError (Error : Type 0) : Type 0 where
  service relay_chain_interface overseer : Error → StartError Error
  panicked : StartError Error

-- What the crates answer; `slot_duration` is Aura's, read from the client.
pub record Crates (Error HwBench : Type 0) : Type 0 where
  pub prepare_node_config : Configuration → Configuration
  pub telemetry_worker : Result Error (Unit {0})
  pub new_full_parts : Configuration → Result Error (Unit {0})
  pub slot_duration : Result Error ℕ
  pub import_queue : ℕ → Result Error (Unit {0})
  -- with a key for a collator
  pub build_relay_chain_interface :
      (polkadot_config config : Configuration) → Option HwBench → Result Error (Option ℕ)
  pub build_network : Configuration → (para_id : ℕ) → Result Error (Unit {0})
  pub spawn_tasks : Configuration → Result Error (Unit {0})
  pub check_hardware : HwBench → Bool
  pub overseer_handle : Result Error (Unit {0})
  pub start_collator : (para_id slot_duration collator_key : ℕ) → Result Error (Unit {0})
  pub start_full_node : (para_id : ℕ) → Result Error (Unit {0})

module _ {Error HwBench : Type 0} (crates : Crates Error HwBench) where
  abbrev pub Start : Type 0 → Type 0
  Start = Action (List Step) (StartError Error)

  abbrev pub emit : Step → Start (Unit {0})
  emit step = modify (λ steps. step ∷ steps)

  -- `call?`
  abbrev pub try : {A : Type 0} → Result Error A → Start A
  try r = lift (map_err service r)

  -- `config.telemetry_endpoints.clone().filter(|x| !x.is_empty())`
  abbrev pub has_telemetry : Configuration → Bool
  has_telemetry config = elim config.telemetry_endpoints [
    | none ↦ false
    | some endpoints ↦ elim endpoints [ [] ↦ false | x ∷ xs ↦ true ]
  ]

  unfoldable pub build_import_queue : Start (Unit {0})
  build_import_queue = do
    slot_duration ← try crates.slot_duration
    try (crates.import_queue slot_duration)

  -- The parts, and whether there is a telemetry among them.
  unfoldable pub new_partial : Configuration → Start Bool
  new_partial config = do
    let with_telemetry = has_telemetry config
    if with_telemetry then try crates.telemetry_worker else pure tt
    try (crates.new_full_parts config)
    if with_telemetry then emit (spawned Spawned.telemetry) else pure tt
    build_import_queue
    pure with_telemetry

  -- The duration that the consensus is built with.
  unfoldable pub build_consensus : Start ℕ
  build_consensus = try crates.slot_duration

  abbrev pub report_hwbench : Option HwBench → (validator with_telemetry : Bool) → Start (Unit {0})
  report_hwbench none validator with_telemetry = pure tt
  report_hwbench (some hwbench) validator with_telemetry = do
    emit hwbench_printed
    if not (crates.check_hardware hwbench) && validator then emit hardware_warned else pure tt
    if with_telemetry then emit (spawned telemetry_hwbench) else pure tt

  -- `collator_key.expect(…)`, which panics
  abbrev pub expect_key : Option ℕ → Start ℕ
  expect_key none = raise panicked
  expect_key (some key) = pure key

  -- The two ends: a collator, or a full node.
  unfoldable pub start_role : (validator : Bool) → (para_id : ℕ) → Option ℕ → Start (Unit {0})
  start_role true para_id collator_key = do
    key ← expect_key collator_key
    slot_duration ← build_consensus
    try (crates.start_collator para_id slot_duration key)
    emit collator_started
  start_role false para_id collator_key = do
    try (crates.start_full_node para_id)
    emit full_node_started

  -- What follows on the parts. The hardware benchmarks are those that the caller hands in.
  unfoldable pub launch :
      (config polkadot_config : Configuration) (para_id : ℕ)
      → Option HwBench
      → (with_telemetry : Bool) → Start (Unit {0})
  launch config polkadot_config para_id hwbench with_telemetry = do
    collator_key ← lift (
        map_err relay_chain_interface
          (crates.build_relay_chain_interface polkadot_config config hwbench))
    let validator = config.is_authority
    try (crates.build_network config para_id)
    if config.offchain_worker then emit (spawned offchain_workers_runner) else pure tt
    try (crates.spawn_tasks config)
    emit tasks_spawned
    report_hwbench hwbench validator with_telemetry
    lift (map_err overseer crates.overseer_handle)
    emit network_started
    start_role validator para_id collator_key

  unfoldable pub start_node_impl :
      (parachain_config polkadot_config : Configuration) (para_id : ℕ)
      → Option HwBench
      → Start (Unit {0})
  start_node_impl parachain_config polkadot_config para_id hwbench = do
    let config = crates.prepare_node_config parachain_config
    with_telemetry ← new_partial config
    launch config polkadot_config para_id hwbench with_telemetry

  -- From nothing.
  unfoldable pub start_parachain_node :
      (parachain_config polkadot_config : Configuration) (para_id : ℕ)
      → Option HwBench
      → Result (StartError Error) (Unit {0}) × List Step
  start_parachain_node parachain_config polkadot_config para_id hwbench =
      start_node_impl parachain_config polkadot_config para_id hwbench []
