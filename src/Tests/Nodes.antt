-- ===== src/Tests/Nodes.antt =====
-- The fee polynomial, the built-in chains and the command line at concrete inputs.
use Prim.Native.String.{String}
use text.Mathlib.Text.{◌==◌ as str_eq}
use gas_leap.Base.{
  nat_eq, List, ℕ, ◌+◌, ◌-◌, ◌*◌, ◌<◌, ◌≡◌, refl, [], map, ◌^◌, if◌then◌else◌, ◌∷◌, true, false,
  Option, none, some, Result, ok, err, arith,
}
use gas_leap.Runtime.{polynomial, milliunit}
use gas_leap.Runtime.Fees.{polynomial_lem}
use gas_leap.Node.ChainSpec.{
  Crates, GenesisConfig, ChainSpec, load_spec, local_testnet_config, genesis_of, accounts,
  collators, testnet_genesis, get_account_id_from_seed, get_collator_keys_from_seed, get_from_seed,
}
use gas_leap.Node.Genesis.{IsSound, built_in-IsSound}
use gas_leap.Runtime.{min_pool_deposit}
use gas_leap.Frame.{Frame}
use gas_leap.Pallet
use gas_leap.Pallet.History.{genesis}
use gas_leap.Base.StorageMap.{get}
use gas_leap.Pallet.{World}
use gas_leap.Frame.{CurrencyLaws}
use gas_leap.Pallet.Change.{new_pool}
use gas_leap.Tests.Setting.{laws, update}
use gas_leap.Node.Launch.{Endows, IsRuntime, endowed_create}
use gas_leap.Tests.Setting.{Accounts, frame, layer, moved}
use gas_leap.Tests.Scenario.{astar_config}
use gas_leap.Node.Cli.{Subcommand, Cli, Features, Configuration, new}
use gas_leap.Node.Relay.{PassedOn, relay_configuration, relay_defaults}
use gas_leap.Node.Command.{System}
use gas_leap.Node.Service.{Step}

-- A base weight of 125000 units, and a fraction that keeps numerator and denominator.
polynomial_lem_example :
    (integer numerator denominator : ℕ) × (polynomial {Perbill = ℕ × ℕ} (λ n d. (n, d)) 125000
      ≡ record {
        degree = 1;
        negative = false;
        coeff_frac = (numerator, denominator);
        coeff_integer = integer;
      }
        ∷ [])
    × (numerator < denominator)
    × ((integer * denominator + numerator) * 125000 * 1000 ≡ milliunit * denominator)
polynomial_lem_example = polynomial_lem {Perbill = ℕ × ℕ} (λ n d. (n, d)) 125000 (omega arith)

-- Alice has the key 1, Bob 2, anyone else 3; the account of a key is 100 more.
abbrev pub crates : Crates
crates = record {
  from_string =
      λ uri. if str_eq uri "//Alice" then some 1 else if str_eq uri "//Bob" then some 2 else some 3;
  into_account = λ k. 100 + k;
  wasm_binary = some (0 ∷ []);
  xcm_version = 3;
}

abbrev pub from_json_file : String → Result String ChainSpec
from_json_file path = err "no such file"

abbrev local_genesis : GenesisConfig
local_genesis = record {
  code = 0 ∷ [];
  balances =
      map (λ k. (k, 2 ^ 60))
        (101 ∷ 102 ∷ 103 ∷ 103 ∷ 103 ∷ 103 ∷ 103 ∷ 103 ∷ 103 ∷ 103 ∷ 103 ∷ 103 ∷ []);
  parachain_id = 1000;
  invulnerables = 101 ∷ 102 ∷ [];
  candidacy_bond = 16000000000;
  keys = (101, 101, 1) ∷ (102, 102, 2) ∷ [];
  safe_xcm_version = some 3;
  sudo_key = some 101;
}

pub local_builds : (local_testnet_config crates).genesis ≡ some local_genesis
unfolding local_testnet_config genesis_of testnet_genesis collators accounts
    get_account_id_from_seed get_collator_keys_from_seed get_from_seed
local_builds = refl

pub local_loads : load_spec crates from_json_file "local" ≡ ok (local_testnet_config crates)
unfolding load_spec
local_loads = refl

built_in-IsSound_example : IsSound (local_testnet_config crates).extensions.para_id local_genesis
built_in-IsSound_example =
    built_in-IsSound crates from_json_file "local" (local_testnet_config crates) local_genesis refl
      local_loads local_builds

-- The currency of the runtime, where every account has 2 ^ 60.
abbrev runtime : Frame Accounts (Option ℕ)
runtime = record frame { min_pool_deposit = min_pool_deposit }

runtime_laws : CurrencyLaws runtime
runtime_laws = record {
  reserve_moves = laws.reserve_moves;
  reserve_others = laws.reserve_others;
  reserve_own = laws.reserve_own;
  others_included = laws.others_included;
  reserved_fits = laws.reserved_fits;
}

abbrev endowed : Accounts
endowed = record { free = λ a. 2 ^ 60; held = λ a. 0; bonds = λ a. 0 }

-- What is left when Alice has paid a fee of 500.
abbrev charged : Accounts
charged = record endowed { free = update endowed.free 101 (2 ^ 60 - 500) }

runtime-IsRuntime : IsRuntime runtime layer
runtime-IsRuntime = record {
  deposit = refl;
  reserves = λ who amount l h k. (moved who amount l, ground arith);
}

all_endowed : Endows runtime layer endowed local_genesis.balances
all_endowed = (
  refl,
  refl,
  (
    refl,
    refl,
    (
      refl,
      refl,
      (
        refl,
        refl,
        (
          refl,
          refl,
          (
            refl,
            refl,
            (refl, refl, (refl, refl, (refl, refl, (refl, refl, (refl, refl, (refl, refl, tt)))))),
          ),
        ),
      ),
    ),
  ),
)

-- Alice creates a pool with the minimum deposit.
endowed_create_example :
    let w : World Accounts = record { storage = genesis runtime layer charged 1; lines = [] } in
    let (result, after) = Pallet.create_pool runtime (some 101) min_pool_deposit astar_config w in
    (result ≡ ok tt)
    × (get 0 after.pools ≡ some (new_pool runtime w.storage 101 min_pool_deposit astar_config))
    × (after.next_pool_id ≡ 1)
    × (runtime.reserved_balance after.ledger 101 ≡ min_pool_deposit)
    × (runtime.free_balance after.ledger 101 + 500 + min_pool_deposit ≡ 2 ^ 60)
endowed_create_example =
    endowed_create runtime layer runtime_laws crates from_json_file "local"
      (local_testnet_config crates) local_genesis endowed charged 1 (some 101) 101 500
      min_pool_deposit astar_config runtime-IsRuntime refl local_loads local_builds all_endowed refl
      refl (record { paid = refl; kept = refl }) (omega arith) (omega arith)

-- A machine where no block can be read.
abbrev pub config : Configuration
config = record {
  extensions = some (record { relay_chain = "rococo-local"; para_id = 1000 });
  base_path = none;
  database_path = none;
  is_authority = false;
  telemetry_endpoints = none;
  offchain_worker = false;
}

abbrev pub system : System String ℕ ℕ (List Step)
system = record {
  create_runner = λ cmd. ok config;
  new_partial = λ config. err "no database";
  task_manager = λ config. ok tt;
  execute = λ task. ok tt;
  load_spec = load_spec crates from_json_file;
  executable_name = "gasleap";
  parse_from = λ args. record { base_path = ok none; chain_id = λ is_dev. ok "" };
  create_configuration = λ cli. ok config;
  generate_genesis_block = λ config. ok 0;
  gather_hwbench = λ path. 0;
  start_parachain_node = λ config polkadot_config id hwbench. ok [];
  run_until_exit = λ steps. ok tt;
}

abbrev pub features : Features
features = record { runtime_benchmarks = false; try_runtime = false }

abbrev asked : Subcommand → Cli
asked cmd = record { subcommand = some cmd; no_hardware_benchmarks = true; relay_chain_args = [] }

abbrev answers : PassedOn String ℕ ℕ
answers = record {
  shared_params = 0;
  import_params = none;
  network_params = none;
  keystore_params = none;
  rpc_http = λ port. ok (some port);
  rpc_ipc = ok none;
  rpc_ws = λ port. ok (some port);
  prometheus_config = λ port spec. ok (some port);
  role = λ is_dev. ok 0;
  transaction_pool = λ is_dev. ok 0;
  trie_cache_maximum_size = ok none;
  rpc_methods = ok 0;
  rpc_ws_max_connections = ok none;
  rpc_cors = λ is_dev. ok none;
  default_heap_pages = ok none;
  force_authoring = ok false;
  disable_grandpa = ok false;
  max_runtime_instances = ok none;
  announce_block = ok true;
  telemetry_endpoints = λ spec. ok none;
  node_name = ok "relay";
}

abbrev stored : Configuration
stored = record config { base_path = some "/data" }

-- Polkadot's own arguments name neither a chain nor a path.
relay_defaults_example :
    ((relay_configuration (λ cmd. answers) (new system.parse_from stored [])).chain_id true
      ≡ ok "rococo-local")
    × ((relay_configuration (λ cmd. answers) (new system.parse_from stored [])).base_path
        ≡ ok (some "/data/polkadot"))
unfolding local_testnet_config
relay_defaults_example =
    relay_defaults (λ cmd. answers) system.parse_from [] stored crates from_json_file "local"
      (local_testnet_config crates) true "/data" "" none refl local_loads refl refl refl refl
