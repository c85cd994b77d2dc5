-- ===== src/Node/Service/Success.antt =====
-- A node that starts, and an authority that has no key.
use gas_leap.Base.{
  ℕ, ◌≡◌, refl, ap, List, [], ◌∷◌, Bool, true, false, Option, none, some, Result, ok, if◌then◌else◌,
  pure, lift, ◌>>=◌, arith, inl, inr, Bool-cases,
}
use gas_leap.Base.Results.{map_err}
use gas_leap.Node.Cli.{Configuration}
use gas_leap.Node.Service.{
  telemetry, offchain_workers_runner, Step, spawned, tasks_spawned, network_started,
  collator_started, full_node_started, StartError, service, relay_chain_interface, overseer, Crates,
  has_telemetry, new_partial, build_import_queue, build_consensus, report_hwbench, start_role,
  launch, start_node_impl, start_parachain_node, Start, emit,
}
use gas_leap.Node.Service.Starting.{when, reported, start_node_lem}

module _ {Error HwBench : Type 0} (crates : Crates Error HwBench) where
  -- Every call that a start makes succeeds, and an authority has a key.
  pub record IsUp (config polkadot_config : Configuration) (para_id duration : ℕ)
      (collator_key : Option ℕ) : Type 0 where
    pub worker : crates.telemetry_worker ≡ ok tt
    pub parts : crates.new_full_parts config ≡ ok tt
    pub slots : crates.slot_duration ≡ ok duration
    pub queue : crates.import_queue duration ≡ ok tt
    pub relay :
        (hwbench : Option HwBench)
        → crates.build_relay_chain_interface polkadot_config config hwbench ≡ ok collator_key
    pub network : crates.build_network config para_id ≡ ok tt
    pub tasks : crates.spawn_tasks config ≡ ok tt
    pub handle : crates.overseer_handle ≡ ok tt
    pub collates :
        config.is_authority ≡ true
        → (key : ℕ) × (collator_key ≡ some key)
          × (crates.start_collator para_id duration key ≡ ok tt)
    pub follows : config.is_authority ≡ false → crates.start_full_node para_id ≡ ok tt

  -- From any steps on, a part of a start succeeds with this result.
  record Yields {A : Type 0} (m : Start crates A) (a : A) : Type 0 where
    yields : (s : List Step) → (m s).0 ≡ ok a

  Yields->>= :
      {A B : Type 0} {m : Start crates A} {f : A → Start crates B} {a : A} {b : B}
      → Yields m a
      → ((x : A) → x ≡ a → Yields (f x) b)
      → Yields (m >>= f) b
  Yields->>= {m = m} {a = a} y y' = record {
    yields = λ s. ground (arith, y.yields s, (y' a refl).yields (m s).1);
  }

  Yields-lift :
      {E A : Type 0} (wrap : E → StartError Error) (r : Result E A) {a : A}
      → r ≡ ok a
      → Yields (lift (map_err wrap r)) a
  Yields-lift wrap r h = record { yields = λ s. ap (map_err wrap) h }

  Yields-emit : (step : Step) → Yields (emit crates step) tt
  Yields-emit step = record { yields = λ s. refl }

  Yields-if : (b : Bool) (step : Step) → Yields (if b then emit crates step else pure tt) tt
  Yields-if true step = record { yields = λ s. refl }
  Yields-if false step = record { yields = λ s. refl }

  Yields-report :
      (hwbench : Option HwBench) (validator with_telemetry : Bool)
      → Yields (report_hwbench crates hwbench validator with_telemetry) tt
  Yields-report none validator with_telemetry = record { yields = λ s. refl }
  Yields-report (some hwbench) validator with_telemetry = record { yields = λ s. ground arith }

  module _ {config polkadot_config : Configuration} {para_id duration : ℕ} {collator_key : Option ℕ}
      (up : IsUp config polkadot_config para_id duration collator_key) where
    Yields-new_partial : Yields (new_partial crates config) (has_telemetry crates config)
    unfolding new_partial build_import_queue
    Yields-new_partial = record { yields = λ s. ground (arith, up) }

    Yields-start_role :
        (key : Option ℕ)
        → key ≡ collator_key
        → Yields (start_role crates config.is_authority para_id key) tt
    unfolding start_role build_consensus
    Yields-start_role key same = record {
      yields = λ s. elim (Bool-cases config.is_authority) [
        | inl e ↦ let (key', k, c) = up.collates e in ground (arith, up.slots)
        | inr e ↦ ground (arith, up.follows e)
      ];
    }

    Yields-launch :
        (hwbench : Option HwBench) (with_telemetry : Bool)
        → Yields (launch crates config polkadot_config para_id hwbench with_telemetry) tt
    unfolding launch
    Yields-launch hwbench with_telemetry =
        Yields->>=
          (Yields-lift relay_chain_interface
            (crates.build_relay_chain_interface polkadot_config config hwbench) (up.relay hwbench))
          λ key same.
            Yields->>= (Yields-lift service (crates.build_network config para_id) up.network) λ _ _.
              Yields->>= (Yields-if config.offchain_worker (spawned offchain_workers_runner)) λ _ _.
                Yields->>= (Yields-lift service (crates.spawn_tasks config) up.tasks) λ _ _.
                  Yields->>= (Yields-emit tasks_spawned) λ _ _.
                    Yields->>= (Yields-report hwbench config.is_authority with_telemetry) λ _ _.
                      Yields->>= (Yields-lift overseer crates.overseer_handle up.handle) λ _ _.
                        Yields->>= (Yields-emit network_started) λ _ _. Yields-start_role key same

  -- Where every call that a start makes succeeds, and an authority has a key, the start succeeds: its
  -- steps are the telemetry if endpoints are given, the offchain workers if they are enabled, the
  -- tasks, the report on the hardware benchmarks, the network, and at last a collator for an
  -- authority and a full node otherwise.
  pub start_succeeds :
      (parachain_config polkadot_config : Configuration) (para_id duration : ℕ)
      (collator_key : Option ℕ) (hwbench : Option HwBench)
      → let config = crates.prepare_node_config parachain_config in
        IsUp config polkadot_config para_id duration collator_key
        → start_parachain_node crates parachain_config polkadot_config para_id hwbench ≡ (
          ok tt,
          (if config.is_authority then collator_started else full_node_started)
              ∷ network_started
              ∷ reported crates config hwbench (
                  tasks_spawned
                  ∷ when config.offchain_worker
                      (spawned offchain_workers_runner)
                      (when (has_telemetry crates config) (spawned telemetry) [])),
        )
  unfolding start_parachain_node start_node_impl
  start_succeeds parachain_config polkadot_config para_id duration collator_key hwbench up =
      let config = crates.prepare_node_config parachain_config in
      let partial = Yields-new_partial up in
      let rest = Yields-launch up hwbench (has_telemetry crates config) in
      let success : (start_parachain_node crates parachain_config polkadot_config para_id hwbench).0
          ≡ ok tt =
        ground (arith, partial.yields [], rest.yields (new_partial crates config []).1) in
      ground (arith, start_node_lem crates parachain_config polkadot_config para_id hwbench)
