-- ===== src/Pallet/Change.antt =====
-- What the dispatchables do to the storage, as seven abstract transitions. The theorems say that
-- each dispatchable makes its transition under its guards, and leaves the storage alone otherwise.
use gas_leap.Base.{
  ℕ, ◌≤◌, ◌≡◌, some, ok, saturating_add, saturating_sub, u32_max, u64_max, u128_max, nat_eq,
  pair_eq, List, true, contains,
}
use gas_leap.Base.StorageMap.{get, insert, remove}
use gas_leap.Types.{
  PoolStatus, PoolConfig, PoolInfo, AuthorizationRule, AuthorizationType, TransactionRecord,
  TransactionStatus, type_eq, pool_created, pool_funded, pool_config_updated,
  authorization_rule_added, authorization_rule_removed, transaction_sponsored,
}
use gas_leap.Gateway.Fee.{estimate_fee}
use gas_leap.Gateway.Delivery.{is_sendable}
use gas_leap.Frame.{Frame}
use gas_leap.Pallet.{Storage, recorded}

module _ {Ledger Origin : Type 0} (frame : Frame Ledger Origin) where
  abbrev pub new_pool : Storage Ledger → ℕ → ℕ → PoolConfig → PoolInfo
  new_pool s who deposit config = record {
    owner = who;
    balance = deposit;
    total_spent = 0;
    created_at = s.block_number;
    config = config;
    status = PoolStatus.active;
  }

  abbrev pub charge : PoolInfo → ℕ → PoolInfo
  charge info cost = record info {
    balance = saturating_sub info.balance cost;
    total_spent = saturating_add u128_max info.total_spent cost;
  }

  abbrev pub new_record : Storage Ledger → ℕ → ℕ → ℕ → List ℕ → ℕ → TransactionRecord
  new_record s pool_id who target_chain call_data cost = record {
    id = s.next_transaction_id;
    pool_id = pool_id;
    user = who;
    target_chain = target_chain;
    call_hash = frame.hash call_data;
    gas_cost = cost;
    status = TransactionStatus.pending;
    timestamp = s.block_number;
  }

  -- From `s` to `s'`, with the event that each transition deposits.
  pub data Change (s s' : Storage Ledger) : Type 0 where
    same : s' ≡ s → Change s s'
    created :
        (who deposit : ℕ) (config : PoolConfig) (l : Ledger)
        → frame.reserve who deposit s.ledger ≡ ok l
        → frame.min_pool_deposit ≤ deposit
        → s' ≡ record s {
          ledger = l;
          pools = insert s.next_pool_id (new_pool s who deposit config) s.pools;
          pool_owners = insert (who, s.next_pool_id) tt s.pool_owners;
          next_pool_id = saturating_add u32_max s.next_pool_id 1;
          events = recorded s.block_number (pool_created s.next_pool_id who deposit) s.events;
        }
        → Change s s'
    funded :
        (pool_id amount : ℕ) (info : PoolInfo) (l : Ledger)
        → get pool_id s.pools ≡ some info
        → info.status ≡ PoolStatus.active
        → frame.reserve info.owner amount s.ledger ≡ ok l
        → s' ≡ record s {
          ledger = l;
          pools =
              insert pool_id
                (record info { balance = saturating_add u128_max info.balance amount })
                s.pools;
          events =
              recorded s.block_number
                (pool_funded pool_id amount (saturating_add u128_max info.balance amount))
                s.events;
        }
        → Change s s'
    configured :
        (pool_id : ℕ) (info : PoolInfo) (config : PoolConfig)
        → get pool_id s.pools ≡ some info
        → s' ≡ record s {
          pools = insert pool_id (record info { config = config }) s.pools;
          events = recorded s.block_number (pool_config_updated pool_id info.owner) s.events;
        }
        → Change s s'
    authorized :
        (pool_id : ℕ) (info : PoolInfo) (rule : AuthorizationRule)
        → get pool_id s.pools ≡ some info
        → s' ≡ record s {
          pool_authorizations = insert (pool_id, rule.rule_type) rule s.pool_authorizations;
          events =
              recorded s.block_number (authorization_rule_added pool_id rule.rule_type) s.events;
        }
        → Change s s'
    deauthorized :
        (pool_id : ℕ) (info : PoolInfo) (rule_type : AuthorizationType)
        → get pool_id s.pools ≡ some info
        → s' ≡ record s {
          pool_authorizations = remove (pool_id, rule_type) s.pool_authorizations;
          events = recorded s.block_number (authorization_rule_removed pool_id rule_type) s.events;
        }
        → Change s s'
    sponsored :
        (pool_id who target_chain : ℕ) (call_data : List ℕ) (cost : ℕ) (info : PoolInfo)
        → get pool_id s.pools ≡ some info
        → info.status ≡ PoolStatus.active
        → contains info.config.allowed_chains target_chain ≡ true
        → estimate_fee target_chain call_data ≡ ok cost
        → is_sendable call_data ≡ true
        → cost ≤ info.balance
        → s' ≡ record s {
          pools = insert pool_id (charge info cost) s.pools;
          transaction_log =
              insert s.next_transaction_id
                (new_record s pool_id who target_chain call_data cost)
                s.transaction_log;
          next_transaction_id = saturating_add u64_max s.next_transaction_id 1;
          events =
              recorded s.block_number
                (transaction_sponsored s.next_transaction_id pool_id who target_chain cost)
                s.events;
        }
        → Change s s'
