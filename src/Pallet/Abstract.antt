-- ===== src/Pallet/Abstract.antt =====
-- The calls of pallets/sponsorship/src/lib.rs in the abstract: storage maps are functions, and a call
-- either fails with an error and changes nothing, or writes everything at once.
mod Agreement
mod Sponsored
pub mod Editing
pub mod Following
mod Charging
mod Keeping
mod Observing
pub mod Commuting
pub mod Postponing
pub mod Simulation
use gas_leap.Base.{
  ℕ, List, ◌∷◌, Bool, Option, none, some, Result, ok, err, leb, contains, nat_eq, pair_eq, ◌==◌, Eq,
  if◌then◌else◌, replace_err, saturating_add, u32_max, u64_max, u128_max, ◌-◌, not,
}
use gas_leap.Base.Results.{◌>>=◌, ◌>>◌, map_err}
use gas_leap.Base.StorageMap.{StorageMap, get}
use gas_leap.Types.{
  PoolStatus, AuthorizationType, TransactionStatus, PoolInfo, AuthorizationRule, SpendingInfo,
  TransactionRecord, Event, pool_created, pool_funded, pool_config_updated, transaction_sponsored,
  authorization_rule_added, authorization_rule_removed, pool_not_found, insufficient_funds,
  invalid_configuration, chain_not_supported, pool_paused, not_pool_owner, deposit_too_small,
  DispatchError, module_error, bad_origin, currency_error, is_active, type_eq,
}
use gas_leap.Gateway.Fee.{estimate_fee}
use gas_leap.Gateway.Delivery.{is_sendable}
use gas_leap.Gateway.Settling.{is_blank}
use gas_leap.Frame.{Frame}
use gas_leap.Pallet.{Storage, recorded}
use gas_leap.Pallet.History.{Call}

-- The storage with its maps as functions.
pub record View (Ledger : Type 0) : Type 0 where
  pub ledger : Ledger
  pub block_number : ℕ
  pub pools : ℕ → Option PoolInfo
  pub next_pool_id : ℕ
  pub pool_owners : ℕ × ℕ → Option (Unit {0})
  pub pool_authorizations : ℕ × AuthorizationType → Option AuthorizationRule
  pub user_spending : ℕ × ℕ → Option SpendingInfo
  pub transaction_log : ℕ → Option TransactionRecord
  pub next_transaction_id : ℕ
  pub events : List Event

abbrev pub look : {K V : Type 0} ⦃e : Eq K⦄ → StorageMap K V → K → Option V
look m k = get k m

abbrev pub view : {Ledger : Type 0} → Storage Ledger → View Ledger
view s = record {
  ledger = s.ledger;
  block_number = s.block_number;
  pools = look s.pools;
  next_pool_id = s.next_pool_id;
  pool_owners = look s.pool_owners;
  pool_authorizations = look s.pool_authorizations;
  user_spending = look s.user_spending;
  transaction_log = look s.transaction_log;
  next_transaction_id = s.next_transaction_id;
  events = s.events;
}

module _ {K V : Type 0} ⦃e : Eq K⦄ where
  abbrev pub put : K → V → (K → Option V) → K → Option V
  put k v f j = if e.beq k j then some v else f j

  abbrev pub drop : K → (K → Option V) → K → Option V
  drop k f j = if e.beq k j then none else f j

abbrev pub require : {A : Type 0} → Option A → DispatchError → Result DispatchError A
require none e = err e
require (some a) e = ok a

abbrev pub check : Bool → DispatchError → Result DispatchError (Unit {0})
check b e = if b then ok tt else err e

abbrev pub settled :
    {Ledger : Type 0}
    → View Ledger
    → Result DispatchError (View Ledger)
    → Result DispatchError (Unit {0}) × View Ledger
settled v (ok v') = (ok tt, v')
settled v (err e) = (err e, v)

module _ {Ledger Origin : Type 0} (frame : Frame Ledger Origin) where
  -- The pool, for its owner.
  abbrev pub owned : Origin → ℕ → View Ledger → Result DispatchError PoolInfo
  owned o p v = do
    who ← require (frame.ensure_signed o) bad_origin
    info ← require (v.pools p) (module_error pool_not_found)
    check (info.owner == who) (module_error not_pool_owner)
    ok info

  abbrev pub reserved : ℕ → ℕ → View Ledger → Result DispatchError Ledger
  reserved who amount v = map_err currency_error (frame.reserve who amount v.ledger)

  -- Who sponsors, the pool that pays, and the fee.
  abbrev pub payment :
      Origin → (p target : ℕ) → List ℕ → View Ledger → Result DispatchError (ℕ × PoolInfo × ℕ)
  payment o p target call_data v = do
    who ← require (frame.ensure_signed o) bad_origin
    info ← require (v.pools p) (module_error pool_not_found)
    check (is_active info.status) (module_error pool_paused)
    check (contains info.config.allowed_chains target) (module_error chain_not_supported)
    fee ← replace_err (module_error chain_not_supported) (estimate_fee target call_data)
    check (leb fee info.balance) (module_error insufficient_funds)
    check (is_sendable call_data) (module_error chain_not_supported)
    ok (who, info, fee)

  -- What a call that succeeds leaves, or why it fails: the first test that fails decides.
  abbrev pub verdict : Origin → Call → View Ledger → Result DispatchError (View Ledger)
  verdict o (Call.create_pool deposit config) v = do
    who ← require (frame.ensure_signed o) bad_origin
    check (leb frame.min_pool_deposit deposit) (module_error deposit_too_small)
    l ← reserved who deposit v
    ok (record v {
      ledger = l;
      pools =
          put v.next_pool_id
            (record {
              owner = who;
              balance = deposit;
              total_spent = 0;
              created_at = v.block_number;
              config = config;
              status = PoolStatus.active;
            })
            v.pools;
      pool_owners = put (who, v.next_pool_id) tt v.pool_owners;
      next_pool_id = saturating_add u32_max v.next_pool_id 1;
      events = recorded v.block_number (pool_created v.next_pool_id who deposit) v.events;
    })
  verdict o (Call.fund_pool p amount) v = do
    info ← owned o p v
    check (is_active info.status) (module_error pool_paused)
    l ← reserved info.owner amount v
    let balance = saturating_add u128_max info.balance amount
    ok (record v {
      ledger = l;
      pools = put p (record info { balance = balance }) v.pools;
      events = recorded v.block_number (pool_funded p amount balance) v.events;
    })
  verdict o (Call.update_pool_config p config) v = do
    info ← owned o p v
    ok (record v {
      pools = put p (record info { config = config }) v.pools;
      events = recorded v.block_number (pool_config_updated p info.owner) v.events;
    })
  verdict o (Call.add_authorization_rule p rule) v = do
    info ← owned o p v
    ok (record v {
      pool_authorizations = put (p, rule.rule_type) rule v.pool_authorizations;
      events = recorded v.block_number (authorization_rule_added p rule.rule_type) v.events;
    })
  verdict o (Call.remove_authorization_rule p t) v = do
    info ← owned o p v
    ok (record v {
      pool_authorizations = drop (p, t) v.pool_authorizations;
      events = recorded v.block_number (authorization_rule_removed p t) v.events;
    })
  verdict o (Call.sponsor_transaction p target call_data) v = do
    (who, info, fee) ← payment o p target call_data v
    ok (record v {
      pools =
          put p
            (record info {
              balance = info.balance - fee;
              total_spent = saturating_add u128_max info.total_spent fee;
            })
            v.pools;
      transaction_log =
          put v.next_transaction_id
            (record {
              id = v.next_transaction_id;
              pool_id = p;
              user = who;
              target_chain = target;
              call_hash = frame.hash call_data;
              gas_cost = fee;
              status = TransactionStatus.pending;
              timestamp = v.block_number;
            })
            v.transaction_log;
      next_transaction_id = saturating_add u64_max v.next_transaction_id 1;
      events =
          recorded v.block_number (transaction_sponsored v.next_transaction_id p who target fee)
            v.events;
    })
  verdict o (Call.process_receipt r) v = do
    who ← require (frame.ensure_signed o) bad_origin
    check (not (is_blank r)) (module_error invalid_configuration)
    ok v

  -- A call in the abstract: all or nothing.
  abbrev pub perform : Origin → Call → View Ledger → Result DispatchError (Unit {0}) × View Ledger
  perform o c v = settled v (verdict o c v)
