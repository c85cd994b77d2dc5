-- ===== src/Tests/Scenario.antt =====
-- A history of two calls, and the worlds that the theorems are tried on.
use gas_leap.Base.{◌==◌, if◌then◌else◌, ℕ, ◌≡◌, refl, List, [], ◌∷◌, false, some, err, nat_eq}
use gas_leap.Base.StorageMap.{get, insert}
use gas_leap.Types.{
  PoolStatus, PoolConfig, PoolInfo, TransactionRecord, TransactionStatus, pool_created,
  module_error, deposit_too_small, not_pool_owner, chain_not_supported,
}
use gas_leap.Gateway.{TransactionReceipt, ExecutionResult}
use gas_leap.Gateway.Fee.{estimate_fee}
use gas_leap.Gateway.Send.{send_cross_chain_transaction}
use gas_leap.Pallet
use gas_leap.Pallet.{World, Storage}
use gas_leap.Pallet.History.{Call, Reach, start, next, called, apply, genesis, Steps, stay, more}
use gas_leap.Tests.Setting.{Accounts, update, frame, layer, settle}

-- The genesis of mock.rs, with the balances that it sets.
abbrev force_set_balance : (who new_free : ℕ) → Accounts → Accounts
force_set_balance who new_free l = record l { free = update l.free who new_free }

abbrev pub new_test_ext : Accounts
new_test_ext = force_set_balance 3 30000 (
    force_set_balance 2 20000
      (force_set_balance 1 10000 (record { free = λ a. 0; held = λ a. 0; bonds = λ a. 0 })))

abbrev pub bytes : List ℕ
bytes = 1 ∷ 2 ∷ 3 ∷ 4 ∷ []

abbrev pub astar_config : PoolConfig
astar_config = record {
  max_transaction_value = 1000;
  daily_spending_limit = 5000;
  allowed_chains = 2006 ∷ [];
  authorization_required = false;
}

abbrev pub fresh : World Accounts
fresh = record { storage = genesis frame layer new_test_ext 1; lines = [] }

abbrev pub creation : Call
creation = Call.create_pool 2000 astar_config

abbrev pub sponsoring : Call
sponsoring = Call.sponsor_transaction 0 2006 bytes

abbrev pub with_pool : World Accounts
with_pool = (apply frame layer (some 1) creation fresh).1

abbrev pub with_record : World Accounts
with_record = (apply frame layer (some 2) sponsoring with_pool).1

pub with_pool-Reach : Reach frame layer with_pool
with_pool-Reach = next (start new_test_ext 1 []) (called (some 1) creation)

pub with_record-Steps : Steps frame layer with_pool with_record
with_record-Steps = more stay (called (some 2) sponsoring)

pub with_record-Reach : Reach frame layer with_record
with_record-Reach = next with_pool-Reach (called (some 2) sponsoring)

-- The pool of account 1 as created, and after one transaction on Astar with four bytes.
abbrev pub pool : PoolInfo
pool = record {
  owner = 1;
  balance = 2000;
  total_spent = 0;
  created_at = 1;
  config = astar_config;
  status = PoolStatus.active;
}

abbrev pub charged_pool : PoolInfo
charged_pool = record pool { balance = 1192; total_spent = 808 }

abbrev pub first_record : TransactionRecord
first_record = record {
  id = 0;
  pool_id = 0;
  user = 2;
  target_chain = 2006;
  call_hash = 4;
  gas_cost = 808;
  status = TransactionStatus.pending;
  timestamp = 1;
}

-- The storage that `create_pool` leaves, written out.
abbrev pub ready : World Accounts
ready = record fresh {
  storage = record fresh.storage {
    ledger = new_test_ext;
    pools = (0, pool) ∷ [];
    next_pool_id = 1;
    pool_owners = ((1, 0), tt) ∷ [];
  };
}

-- create_pool_works
pub creates : get 0 with_pool.pools ≡ some pool
unfolding Pallet.create_pool settle get insert
creates = refl

creates_event : with_pool.events ≡ pool_created 0 1 2000 ∷ []
unfolding Pallet.create_pool settle Pallet.recorded
creates_event = refl

pub creates_id : with_pool.next_pool_id ≡ 1
unfolding Pallet.create_pool settle
creates_id = refl

-- create_pool_fails_with_insufficient_deposit
small_deposit :
    Pallet.create_pool frame (some 1) 500 astar_config fresh
    ≡ (err (module_error deposit_too_small), fresh)
unfolding Pallet.create_pool
small_deposit = refl

-- fund_pool_fails_for_non_owner
stranger_funds :
    Pallet.fund_pool frame (some 2) 0 1000 ready ≡ (err (module_error not_pool_owner), ready)
unfolding Pallet.fund_pool get
stranger_funds = refl

-- sponsor_transaction_works
pub sponsors : get 0 with_record.pools ≡ some charged_pool
unfolding Pallet.create_pool Pallet.sponsor_transaction settle get insert estimate_fee
    send_cross_chain_transaction
sponsors = refl

pub sponsors_log : with_record.transaction_log ≡ (0, first_record) ∷ []
unfolding Pallet.create_pool Pallet.sponsor_transaction settle get insert estimate_fee
    send_cross_chain_transaction
sponsors_log = refl

pub sponsors_ids : (with_record.next_pool_id ≡ 1) × (with_record.next_transaction_id ≡ 1)
unfolding Pallet.create_pool Pallet.sponsor_transaction settle get insert estimate_fee
    send_cross_chain_transaction
sponsors_ids = (refl, refl)

pub sponsors_held :
    (who : ℕ)
    → (with_record.ledger.held who ≡ (if 1 == who then 2000 else 0))
      × (with_record.ledger.bonds who ≡ 0)
unfolding Pallet.create_pool Pallet.sponsor_transaction settle get insert estimate_fee
    send_cross_chain_transaction
sponsors_held who = (refl, refl)

-- sponsor_transaction_fails_for_unsupported_chain
unlisted_chain :
    Pallet.sponsor_transaction frame (some 2) 0 2000 bytes ready
    ≡ (err (module_error chain_not_supported), ready)
unfolding Pallet.sponsor_transaction get
unlisted_chain = refl

-- `create_test_receipt` of xcm_gateway.rs.
abbrev pub receipt : ℕ → ExecutionResult → ℕ → TransactionReceipt
receipt transaction_id result gas_used = record {
  transaction_id = transaction_id;
  target_chain = 2006;
  execution_result = result;
  actual_gas_used = gas_used;
  block_hash = 257;
  block_number = 1;
  events = [];
}
