-- ===== src/Pallet/Queries.antt =====
-- The read-only functions of pallets/sponsorship/src/lib.rs that the runtime API calls. Iterating
-- over a storage map follows the hashes of the keys: the order is a parameter.
pub mod ByOwner
pub mod Savings
pub mod Transactions
pub mod Quote
use mathlib.Core.List.{Mem, Perm}
use gas_leap.Base.{
  ℕ, ◌+◌, ◌^◌, ◌≡◌, ◌↔◌, List, [], ◌∷◌, Option, none, some, ok, err, length, ltb, leb, ◌==◌, nat_eq,
  pair_eq, ◌&&◌, if◌then◌else◌, saturating_add, saturating_mul, u128_max,
}
use gas_leap.Base.StorageMap.{StorageMap, get}
use gas_leap.Types.{PoolInfo, TransactionRecord, is_executed}
use gas_leap.Gateway.Fee.{estimate_fee}
use gas_leap.Pallet.{Storage}

pub record Iteration : Type 0 where
  -- `<TransactionLog<T>>::iter()`
  pub iter_log : StorageMap ℕ TransactionRecord → List (ℕ × TransactionRecord)
  -- `<PoolOwners<T>>::iter_prefix(owner)`, its keys
  pub iter_prefix : ℕ → StorageMap (ℕ × ℕ) (Unit {0}) → List ℕ

-- Iteration meets every entry once, in some order.
pub record IterationLaws (it : Iteration) : Type 0 where
  pub iter_log-perm : (m : StorageMap ℕ TransactionRecord) → Perm (it.iter_log m) m
  pub mem-iter_prefix :
      (owner pool_id : ℕ) (m : StorageMap (ℕ × ℕ) (Unit {0}))
      → Mem pool_id (it.iter_prefix owner m) ↔ (get (owner, pool_id) m ≡ some tt)

module _ {Ledger : Type 0} where
  unfoldable pub get_pool_info : Storage Ledger → ℕ → Option PoolInfo
  get_pool_info s pool_id = get pool_id s.pools

-- The loop of `get_pools_by_owner_account` over the ids of one owner.
unfoldable pub collect_pools : StorageMap ℕ PoolInfo → List ℕ → List (ℕ × PoolInfo)
collect_pools pools [] = []
collect_pools pools (pool_id ∷ rest) = elim (get pool_id pools) [
  | none ↦ collect_pools pools rest
  | some pool_info ↦ (pool_id, pool_info) ∷ collect_pools pools rest
]

-- The loop of `get_pool_transaction_history`, from a count: what it pushes.
unfoldable pub collect_history :
    (pool_id limit : ℕ) → List (ℕ × TransactionRecord) → ℕ → List TransactionRecord
collect_history pool_id limit [] count = []
collect_history pool_id limit ((_, tx_record) ∷ rest) count =
    let further = collect_history pool_id limit rest (count + 1) in
    let skipped = collect_history pool_id limit rest count in
    if tx_record.pool_id == pool_id
    then tx_record ∷ (if leb limit (count + 1) then [] else further)
    else skipped

-- The loop of `get_user_total_gas_savings`, from a total.
unfoldable pub add_savings : ℕ → List (ℕ × TransactionRecord) → ℕ → ℕ
add_savings user [] total_savings = total_savings
add_savings user ((_, tx_record) ∷ rest) total_savings = add_savings user rest (
    if tx_record.user == user && is_executed tx_record.status
    then saturating_add u128_max total_savings tx_record.gas_cost
    else total_savings)

-- `call_data.len().try_into().unwrap_or(0)` into a u32.
abbrev pub call_size : List ℕ → ℕ
call_size call_data = if ltb (length call_data) (2 ^ 32) then length call_data else 0

unfoldable pub estimate_transaction_gas_cost : ℕ → List ℕ → ℕ
unfolding estimate_fee
estimate_transaction_gas_cost target_chain call_data = elim (estimate_fee target_chain call_data) [
  | ok fee ↦ fee
  | err _ ↦ saturating_add u128_max 1000 (saturating_mul u128_max 10 (call_size call_data))
]

module _ {Ledger : Type 0} (it : Iteration) (s : Storage Ledger) where
  unfoldable pub get_pools_by_owner_account : ℕ → List (ℕ × PoolInfo)
  unfolding collect_pools
  get_pools_by_owner_account owner = collect_pools s.pools (it.iter_prefix owner s.pool_owners)

  unfoldable pub get_pool_transaction_history : (pool_id limit : ℕ) → List TransactionRecord
  unfolding collect_history
  get_pool_transaction_history pool_id limit =
      collect_history pool_id limit (it.iter_log s.transaction_log) 0

  unfoldable pub get_user_total_gas_savings : ℕ → ℕ
  unfolding add_savings
  get_user_total_gas_savings user = add_savings user (it.iter_log s.transaction_log) 0
