-- ===== src/Tests/Services.antt =====
-- The start of a node at concrete inputs.
use Prim.Native.String.{String}
use gas_leap.Base.{
  List, if◌then◌else◌, ℕ, ◌≡◌, refl, [], ◌∷◌, true, false, none, some, ok, err, ◌⊎◌,
}
use gas_leap.Base.Results.{map_err}
use gas_leap.Node.Cli.{Cli, Configuration}
use gas_leap.Node.Command.{System}
use gas_leap.Node.Service
use gas_leap.Node.Service.{
  Step, Spawned, offchain_workers_runner, telemetry_hwbench, spawned, tasks_spawned,
  hwbench_printed, hardware_warned, network_started, collator_started, StartError,
  start_parachain_node,
}
use gas_leap.Node.Service.Runs.{has_started}
use gas_leap.Node.Service.Starting.{start_node_lem}
use gas_leap.Node.Service.Success.{IsUp, start_succeeds}
use gas_leap.Node.Whole.{handed}
use gas_leap.Tests.Nodes.{config, system}

-- An authority with telemetry and offchain workers, on hardware that is too slow.
abbrev authority : Configuration
authority = record config {
  is_authority = true;
  telemetry_endpoints = some ("wss://telemetry" ∷ []);
  offchain_worker = true;
}

abbrev services : Service.Crates String ℕ
services = record {
  prepare_node_config = λ config. config;
  telemetry_worker = ok tt;
  new_full_parts = λ config. ok tt;
  slot_duration = ok 12000;
  import_queue = λ duration. ok tt;
  build_relay_chain_interface = λ polkadot_config config hwbench. ok (some 5);
  build_network = λ config para_id. ok tt;
  spawn_tasks = λ config. ok tt;
  check_hardware = λ hwbench. false;
  overseer_handle = ok tt;
  start_collator = λ para_id duration key. ok tt;
  start_full_node = λ para_id. ok tt;
}

authority-IsUp : IsUp services authority config 1000 12000 (some 5)
authority-IsUp = record {
  worker = refl;
  parts = refl;
  slots = refl;
  queue = refl;
  relay = λ hwbench. refl;
  network = refl;
  tasks = refl;
  handle = refl;
  collates = λ e. (5, refl, refl);
  follows = λ e. refl;
}

start_succeeds_example : start_parachain_node services authority config 1000 (some 0) ≡ (
  ok tt,
  collator_started
      ∷ network_started
      ∷ spawned telemetry_hwbench
      ∷ hardware_warned
      ∷ hwbench_printed
      ∷ tasks_spawned
      ∷ spawned offchain_workers_runner
      ∷ spawned Spawned.telemetry
      ∷ [],
)
start_succeeds_example =
    start_succeeds services authority config 1000 12000 (some 5) (some 0) authority-IsUp

-- The same without a network.
abbrev offline : Service.Crates String ℕ
offline = record services { build_network = λ config para_id. err "no network" }

start_node_lem_example :
    let (r, steps) = start_parachain_node offline authority config 1000 none in
    ((r ≡ ok tt)
      × (steps
          ≡ collator_started
            ∷ network_started
            ∷ tasks_spawned
            ∷ spawned offchain_workers_runner
            ∷ spawned Spawned.telemetry
            ∷ []))
    ⊎ ((e : StartError String) × (r ≡ err e) × (has_started steps ≡ false))
start_node_lem_example = start_node_lem offline authority config 1000 none

-- The machine of Tests/Nodes with the services of this one.
abbrev whole : System String ℕ ℕ (List Step)
whole = record system {
  start_parachain_node = λ config polkadot_config id hwbench.
      map_err (λ e. "service")
        (handed (start_parachain_node services config polkadot_config id hwbench));
  run_until_exit = λ steps. if has_started steps then ok tt else err "idle";
}

abbrev plainly : Cli
plainly = record { subcommand = none; no_hardware_benchmarks = false; relay_chain_args = [] }
