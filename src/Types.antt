-- ===== src/Types.antt =====
-- The data types of pallets/sponsorship/src/lib.rs: pools, rules, records, events and errors.
-- Balances are u128, pool ids and block numbers u32, transaction ids u64; accounts and hashes
-- are 32 bytes that are only compared, read as numbers. A `BoundedVec` is the list that it holds.
use gas_leap.Base.{ℕ, List, Bool, true, false, Eq, ◌≡◌, ◌↔◌, ◌==◌, arith}

pub data PoolStatus : Type 0 where
  active paused closed : PoolStatus

pub data AuthorizationType : Type 0 where
  user_whitelist transaction_type spending_limit : AuthorizationType

pub data TransactionStatus : Type 0 where
  pending dispatched executed failed refunded : TransactionStatus

pub record PoolConfig : Type 0 where
  pub max_transaction_value : ℕ
  pub daily_spending_limit : ℕ
  pub allowed_chains : List ℕ
  pub authorization_required : Bool

pub record PoolInfo : Type 0 where
  pub owner : ℕ
  pub balance : ℕ
  pub total_spent : ℕ
  pub created_at : ℕ
  pub config : PoolConfig
  pub status : PoolStatus

pub record AuthorizationRule : Type 0 where
  pub rule_type : AuthorizationType
  pub contents : List ℕ
  pub created_at : ℕ

pub record SpendingInfo : Type 0 where
  pub total_spent : ℕ
  pub daily_spent : ℕ
  pub last_reset : ℕ

-- `impl Default for SpendingInfo`
abbrev pub default_spending_info : SpendingInfo
default_spending_info = record { total_spent = 0; daily_spent = 0; last_reset = 0 }

pub record TransactionRecord : Type 0 where
  pub id : ℕ
  pub pool_id : ℕ
  pub user : ℕ
  pub target_chain : ℕ
  pub call_hash : ℕ
  pub gas_cost : ℕ
  pub status : TransactionStatus
  pub timestamp : ℕ

pub data Event : Type 0 where
  pool_created : (pool_id owner initial_deposit : ℕ) → Event
  pool_funded : (pool_id amount new_balance : ℕ) → Event
  pool_config_updated : (pool_id owner : ℕ) → Event
  transaction_sponsored : (transaction_id pool_id user target_chain gas_cost : ℕ) → Event
  authorization_rule_added : ℕ → AuthorizationType → Event
  authorization_rule_removed : ℕ → AuthorizationType → Event

pub data Error : Type 0 where
  pool_not_found insufficient_funds unauthorized_user invalid_configuration : Error
  exceeds_spending_limit chain_not_supported transaction_too_large pool_paused : Error
  pool_closed not_pool_owner too_many_pools deposit_too_small : Error

-- What a dispatchable fails with: an error of this pallet, `BadOrigin`, or the error of the
-- currency that `?` passes on.
pub data DispatchError : Type 0 where
  module_error : Error → DispatchError
  bad_origin : DispatchError
  currency_error : ℕ → DispatchError

-- The derived `==` at the values that the code compares with.
abbrev pub is_active : PoolStatus → Bool
is_active PoolStatus.active = true
is_active _ = false

abbrev pub is_executed : TransactionStatus → Bool
is_executed TransactionStatus.executed = true
is_executed _ = false

abbrev pub type_index : AuthorizationType → ℕ
type_index AuthorizationType.user_whitelist = 0
type_index AuthorizationType.transaction_type = 1
type_index AuthorizationType.spending_limit = 2

pub type_beq_iff : (a b : AuthorizationType) → ((type_index a == type_index b) ≡ true) ↔ (a ≡ b)
type_beq_iff a b = ground arith

instance abbrev pub type_eq : Eq AuthorizationType
type_eq = record { beq = λ a b. type_index a == type_index b; beq_iff = type_beq_iff }
