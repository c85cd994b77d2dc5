-- ===== src/Node/Service/Starting.antt =====
-- The steps of a start.
use gas_leap.Base.{
  ℕ, ◌≡◌, refl, List, [], ◌∷◌, Bool, true, false, not, ◌&&◌, Option, none, some, ok, err,
  if◌then◌else◌, arith, Result-cases, inl, inr, ◌⊎◌,
}
use gas_leap.Base.Results.{map_err}
use gas_leap.Node.Cli.{Configuration}
use gas_leap.Node.Service.{
  Spawned, telemetry, offchain_workers_runner, telemetry_hwbench, Step, spawned, tasks_spawned,
  hwbench_printed, hardware_warned, network_started, collator_started, full_node_started,
  StartError, service, relay_chain_interface, overseer, Crates, has_telemetry, new_partial,
  build_import_queue, build_consensus, report_hwbench, start_role, launch, start_node_impl,
  start_parachain_node,
}
use gas_leap.Node.Service.Runs.{has_started, Runs, Runs->>=, Runs-lift, Runs-emit, Runs-if}

abbrev pub when : Bool → Step → List Step → List Step
when b step steps = if b then step ∷ steps else steps

has_started-when :
    (b : Bool) (task : Spawned) (s : List Step)
    → has_started (when b (spawned task) s) ≡ has_started s
has_started-when true task s = refl
has_started-when false task s = refl

module _ {Error HwBench : Type 0} (crates : Crates Error HwBench) where
  new_partial-ok :
      (config : Configuration) (steps : List Step) (b : Bool)
      → (new_partial crates config steps).0 ≡ ok b
      → b ≡ has_telemetry crates config
  unfolding new_partial build_import_queue
  new_partial-ok config steps b h = ground arith

  new_partial-Runs :
      (config : Configuration)
      → Runs crates
          (new_partial crates config)
          (λ s. when (has_telemetry crates config) (spawned telemetry) s)
  unfolding new_partial build_import_queue
  new_partial-Runs config = record { adds = λ s b h. ground arith; fails = λ s e h. ground arith }

  start_role-Runs :
      (validator : Bool) (para_id : ℕ) (key : Option ℕ)
      → Runs crates
          (start_role crates validator para_id key)
          (λ s. (if validator then collator_started else full_node_started) ∷ s)
  unfolding start_role build_consensus
  start_role-Runs true para_id key = record {
    adds = λ s b h. ground arith;
    fails = λ s e h. ground arith;
  }
  start_role-Runs false para_id key = record {
    adds = λ s b h. ground arith;
    fails = λ s e h. ground arith;
  }

  -- The report on the hardware benchmarks, the latest first.
  abbrev pub reported : Configuration → Option HwBench → List Step → List Step
  reported config none s = s
  reported config (some hwbench) s =
      when (has_telemetry crates config) (spawned telemetry_hwbench) (
        when (not (crates.check_hardware hwbench) && config.is_authority) hardware_warned
          (hwbench_printed ∷ s))

  report_hwbench-Runs :
      (config : Configuration) (hwbench : Option HwBench)
      → Runs crates
          (report_hwbench crates hwbench config.is_authority (has_telemetry crates config))
          (reported config hwbench)
  report_hwbench-Runs config none = record { adds = λ s a h. refl; fails = λ s e h. refl }
  report_hwbench-Runs config (some hwbench) = record {
    adds = λ s b h. ground arith;
    fails = λ s e h. ground arith;
  }

  has_started-reported :
      (config : Configuration) (hwbench : Option HwBench) (s : List Step)
      → has_started (reported config hwbench s) ≡ has_started s
  has_started-reported config none s = refl
  has_started-reported config (some hwbench) s = ground arith

  launched : Configuration → Option HwBench → List Step → List Step
  launched config hwbench s =
      (if config.is_authority then collator_started else full_node_started)
      ∷ network_started
      ∷ reported config hwbench
          (tasks_spawned ∷ when config.offchain_worker (spawned offchain_workers_runner) s)

  launch-Runs :
      (config polkadot_config : Configuration) (para_id : ℕ) (hwbench : Option HwBench)
      → Runs crates
          (launch crates config polkadot_config para_id hwbench (has_telemetry crates config))
          (launched config hwbench)
  unfolding launch launched
  launch-Runs config polkadot_config para_id hwbench =
      Runs->>= crates
        (Runs-lift crates (
          map_err relay_chain_interface
            (crates.build_relay_chain_interface polkadot_config config hwbench)))
        (λ s. refl)
        λ key.
          Runs->>= crates (Runs-lift crates (map_err service (crates.build_network config para_id)))
            (λ s. refl)
            λ _.
              Runs->>= crates
                (Runs-if crates config.offchain_worker (spawned offchain_workers_runner))
                (has_started-when config.offchain_worker offchain_workers_runner)
                λ _.
                  Runs->>= crates (Runs-lift crates (map_err service (crates.spawn_tasks config)))
                    (λ s. refl)
                    λ _.
                      Runs->>= crates (Runs-emit crates tasks_spawned) (λ s. refl)
                        λ _.
                          Runs->>= crates (report_hwbench-Runs config hwbench)
                            (has_started-reported config hwbench)
                            λ _.
                              Runs->>= crates
                                (Runs-lift crates (map_err overseer crates.overseer_handle))
                                (λ s. refl)
                                λ _.
                                  Runs->>= crates (Runs-emit crates network_started) (λ s. refl)
                                    λ _. start_role-Runs config.is_authority para_id key

  -- A start succeeds or fails. One that succeeds has, in this order, spawned the telemetry if endpoints
  -- are given, spawned the offchain workers if they are enabled, spawned the tasks, reported the
  -- hardware benchmarks if there are any, started the network, and at last started a collator for an
  -- authority and a full node otherwise. In one that fails neither a collator nor a full node has
  -- started.
  pub start_node_lem :
      (parachain_config polkadot_config : Configuration) (para_id : ℕ) (hwbench : Option HwBench)
      → let config = crates.prepare_node_config parachain_config in
        let (r, steps) =
          start_parachain_node crates parachain_config polkadot_config para_id hwbench in
        ((r ≡ ok tt)
          × (steps
              ≡ (if config.is_authority then collator_started else full_node_started)
                ∷ network_started
                ∷ reported config hwbench (
                    tasks_spawned
                    ∷ when config.offchain_worker
                        (spawned offchain_workers_runner)
                        (when (has_telemetry crates config) (spawned telemetry) []))))
        ⊎ ((e : StartError Error) × (r ≡ err e) × (has_started steps ≡ false))
  unfolding start_parachain_node start_node_impl launched
  start_node_lem parachain_config polkadot_config para_id hwbench =
      let config = crates.prepare_node_config parachain_config in
      let partial = new_partial-Runs config in
      let rest = launch-Runs config polkadot_config para_id hwbench in
      let before = when (has_telemetry crates config) (spawned telemetry) [] in
      elim (Result-cases (new_partial crates config []).0) [
        | inr (x, f) ↦ inr (x, ground arith, ground (arith, partial.fails [] x f))
        | inl (b, f) ↦
            let same = new_partial-ok config [] b f in
            let s = partial.adds [] b f in
            elim (Result-cases
              (launch crates config polkadot_config para_id hwbench (has_telemetry crates config)
                before).0) [
                  | inl (u, g) ↦ inl (ground arith, ground (arith, rest.adds before tt g))
                  | inr (e, g) ↦ inr (
                    e,
                    ground arith,
                    ground (
                      arith,
                      rest.fails before e g,
                      has_started-when (has_telemetry crates config) Spawned.telemetry [],
                    ),
                  )
                ]
      ]
