-- ===== src/Pallet.antt =====
-- pallets/sponsorship/src/lib.rs: the storage of the pallet and its seven dispatchables. A
-- dispatchable is the function's body: what it has written before an error is still there, and
-- the storage layer that FRAME puts round a call (Pallet/History) takes it back.
pub mod Queries
pub mod Change
pub mod Refinement
pub mod History
pub mod Abstract
pub mod Solvency
pub mod Audit
pub mod Conservation
pub mod Status
pub mod Owners
pub mod Sponsoring
pub mod Series
pub mod Access
pub mod Creation
pub mod Receipts
pub mod Rules
pub mod Unlimited
pub mod Indexer
pub mod Integrity
pub mod Widths
pub mod Budget
pub mod Exhaustion
pub mod Interleaving
pub mod Persistence
use gas_leap.Base.{
  ℕ, ◌≤◌, ◌≡◌, arith, if◌then◌else◌, List, [], ◌∷◌, Bool, Option, none, some, leb, ◌==◌, nat_eq,
  pair_eq, contains, Result, ok, err, Action, pure, raise, gets, or_raise, lift, ensure, modify,
  replace_err, ◌>>=◌, ◌>>◌, saturating_add, saturating_sub, u32_max, u64_max, u128_max,
}
use gas_leap.Base.StorageMap.{StorageMap, get, insert, remove}
use gas_leap.Types.{
  PoolStatus, AuthorizationType, TransactionStatus, PoolConfig, PoolInfo, AuthorizationRule,
  SpendingInfo, TransactionRecord, Event, pool_created, pool_funded, pool_config_updated,
  transaction_sponsored, authorization_rule_added, authorization_rule_removed, Error,
  pool_not_found, insufficient_funds, invalid_configuration, chain_not_supported, pool_paused,
  not_pool_owner, deposit_too_small, DispatchError, module_error, bad_origin, currency_error,
  is_active, type_eq,
}
use gas_leap.Gateway.{
  LogLine, receipt_processed, receipt_already_processed, Gateway, TransactionReceipt,
  ReceiptProcessingResult,
}
use gas_leap.Gateway.Fee.{estimate_fee}
use gas_leap.Gateway.Send.{send_cross_chain_transaction}
use gas_leap.Gateway.Receipt.{process_receipt as process_gateway_receipt}
use gas_leap.Frame.{Frame}

-- The storage items of the pallet, the currency's storage, the block number, and the events
-- of the block, newest first. `pool_owners` is a set of pairs.
pub record Storage (Ledger : Type 0) : Type 0 where
  pub ledger : Ledger
  pub block_number : ℕ
  pub pools : StorageMap ℕ PoolInfo
  pub next_pool_id : ℕ
  pub pool_owners : StorageMap (ℕ × ℕ) (Unit {0})
  pub pool_authorizations : StorageMap (ℕ × AuthorizationType) AuthorizationRule
  pub user_spending : StorageMap (ℕ × ℕ) SpendingInfo
  pub transaction_log : StorageMap ℕ TransactionRecord
  pub next_transaction_id : ℕ
  pub events : List Event

-- The log lines are no storage: no roll-back takes them back.
pub record World (Ledger : Type 0) : Type 0 where
  pub storage : Storage Ledger
  pub open storage use *
  pub lines : List LogLine

abbrev pub Dispatch : Type 0 → Type 0
Dispatch Ledger = Action (World Ledger) DispatchError (Unit {0})

-- `Self::pools(&pool_id).ok_or(Error::<T>::PoolNotFound)?`
abbrev pub pool_or_fail : {Ledger : Type 0} → ℕ → Action (World Ledger) DispatchError PoolInfo
pool_or_fail pool_id w = or_raise (get pool_id w.pools) (module_error pool_not_found) w

abbrev pub write : {Ledger : Type 0} → (Storage Ledger → Storage Ledger) → Dispatch Ledger
write f w = (ok tt, record w { storage = f w.storage })

abbrev pub put_pool : {Ledger : Type 0} → ℕ → PoolInfo → Dispatch Ledger
put_pool pool_id pool_info = write (λ s. record s { pools = insert pool_id pool_info s.pools })

-- `frame_system::Pallet::deposit_event` drops what is deposited in block 0.
unfoldable pub recorded : (block : ℕ) → Event → List Event → List Event
recorded block event events = if block == 0 then events else event ∷ events

pub recorded_later :
    (block : ℕ) (event : Event) (events : List Event)
    → 1 ≤ block
    → recorded block event events ≡ event ∷ events
unfolding recorded
recorded_later block event events h = ground arith

abbrev pub deposit_event : {Ledger : Type 0} → Event → Dispatch Ledger
deposit_event event = write (λ s. record s { events = recorded s.block_number event s.events })

-- A call of the gateway, which sees the log only; `e` is what its error is mapped to.
abbrev pub call_gateway :
    {Ledger A : Type 0} → Gateway A → DispatchError → Action (World Ledger) DispatchError A
call_gateway g e w = let (r, lines) = g w.lines in (replace_err e r, record w { lines = lines })

-- The `match` on the result in `process_receipt`.
abbrev pub conclude : {Ledger : Type 0} → ReceiptProcessingResult → Dispatch Ledger
conclude ReceiptProcessingResult.processed w =
    (ok tt, record w { lines = receipt_processed ∷ w.lines })
conclude ReceiptProcessingResult.already_processed w =
    (ok tt, record w { lines = receipt_already_processed ∷ w.lines })
conclude ReceiptProcessingResult.invalid_receipt w = (err (module_error invalid_configuration), w)
conclude ReceiptProcessingResult.pool_update_failed w = (err (module_error insufficient_funds), w)

module _ {Ledger Origin : Type 0} (frame : Frame Ledger Origin) where
  abbrev pub signer : Origin → Action (World Ledger) DispatchError ℕ
  signer origin = or_raise (frame.ensure_signed origin) bad_origin

  abbrev pub reserve_or_fail : ℕ → ℕ → Dispatch Ledger
  reserve_or_fail who amount w = elim (frame.reserve who amount w.ledger) [
    | ok l ↦ (ok tt, record w { storage = record w.storage { ledger = l } })
    | err e ↦ (err (currency_error e), w)
  ]

  unfoldable pub create_pool : Origin → ℕ → PoolConfig → Dispatch Ledger
  create_pool origin initial_deposit config = do
    who ← signer origin
    ensure (leb frame.min_pool_deposit initial_deposit) (module_error deposit_too_small)
    pool_id ← gets (λ w. w.next_pool_id)
    let next_id = saturating_add u32_max pool_id 1
    reserve_or_fail who initial_deposit
    block ← gets (λ w. w.block_number)
    put_pool pool_id (record {
      owner = who;
      balance = initial_deposit;
      total_spent = 0;
      created_at = block;
      config = config;
      status = PoolStatus.active;
    })
    write (λ s. record s { pool_owners = insert (who, pool_id) tt s.pool_owners })
    write (λ s. record s { next_pool_id = next_id })
    deposit_event (pool_created pool_id who initial_deposit)

  unfoldable pub fund_pool : Origin → ℕ → ℕ → Dispatch Ledger
  fund_pool origin pool_id amount = do
    who ← signer origin
    pool_info ← pool_or_fail pool_id
    ensure (pool_info.owner == who) (module_error not_pool_owner)
    ensure (is_active pool_info.status) (module_error pool_paused)
    reserve_or_fail who amount
    let new_balance = saturating_add u128_max pool_info.balance amount
    put_pool pool_id (record pool_info { balance = new_balance })
    deposit_event (pool_funded pool_id amount new_balance)

  unfoldable pub update_pool_config : Origin → ℕ → PoolConfig → Dispatch Ledger
  update_pool_config origin pool_id new_config = do
    who ← signer origin
    pool_info ← pool_or_fail pool_id
    ensure (pool_info.owner == who) (module_error not_pool_owner)
    put_pool pool_id (record pool_info { config = new_config })
    deposit_event (pool_config_updated pool_id who)

  unfoldable pub add_authorization_rule : Origin → ℕ → AuthorizationRule → Dispatch Ledger
  add_authorization_rule origin pool_id rule = do
    who ← signer origin
    pool_info ← pool_or_fail pool_id
    ensure (pool_info.owner == who) (module_error not_pool_owner)
    write (λ s. record s {
      pool_authorizations = insert (pool_id, rule.rule_type) rule s.pool_authorizations;
    })
    deposit_event (authorization_rule_added pool_id rule.rule_type)

  unfoldable pub remove_authorization_rule : Origin → ℕ → AuthorizationType → Dispatch Ledger
  remove_authorization_rule origin pool_id rule_type = do
    who ← signer origin
    pool_info ← pool_or_fail pool_id
    ensure (pool_info.owner == who) (module_error not_pool_owner)
    write
        (λ s. record s { pool_authorizations = remove (pool_id, rule_type) s.pool_authorizations })
    deposit_event (authorization_rule_removed pool_id rule_type)

  -- What `sponsor_transaction` writes before it calls the gateway: the record and the new id,
  -- then the pool with the cost taken off.
  unfoldable pub book_transaction : ℕ → ℕ → PoolInfo → ℕ → ℕ → List ℕ → ℕ → Dispatch Ledger
  book_transaction transaction_id pool_id pool_info who target_chain call_data cost = do
    block ← gets (λ w. w.block_number)
    write (λ s. record s {
      transaction_log =
          insert transaction_id
            (record {
              id = transaction_id;
              pool_id = pool_id;
              user = who;
              target_chain = target_chain;
              call_hash = frame.hash call_data;
              gas_cost = cost;
              status = TransactionStatus.pending;
              timestamp = block;
            })
            s.transaction_log;
    })
    write (λ s. record s { next_transaction_id = saturating_add u64_max transaction_id 1 })
    put_pool pool_id (record pool_info {
      balance = saturating_sub pool_info.balance cost;
      total_spent = saturating_add u128_max pool_info.total_spent cost;
    })

  unfoldable pub sponsor_transaction : Origin → ℕ → ℕ → List ℕ → Dispatch Ledger
  unfolding book_transaction
  sponsor_transaction origin pool_id target_chain call_data = do
    who ← signer origin
    pool_info ← pool_or_fail pool_id
    ensure (is_active pool_info.status) (module_error pool_paused)
    ensure (contains pool_info.config.allowed_chains target_chain)
        (module_error chain_not_supported)
    transaction_id ← gets (λ w. w.next_transaction_id)
    estimated_gas_cost ←
        (lift
          (replace_err (module_error chain_not_supported) (estimate_fee target_chain call_data)))
    ensure (leb estimated_gas_cost pool_info.balance) (module_error insufficient_funds)
    book_transaction transaction_id pool_id pool_info who target_chain call_data estimated_gas_cost
    block ← gets (λ w. w.block_number)
    call_gateway
        (send_cross_chain_transaction frame.hash block pool_id who target_chain call_data
          transaction_id)
        (module_error chain_not_supported)
    deposit_event (transaction_sponsored transaction_id pool_id who target_chain estimated_gas_cost)

  unfoldable pub process_receipt : Origin → TransactionReceipt → Dispatch Ledger
  process_receipt origin receipt = do
    who ← signer origin
    result ← call_gateway (process_gateway_receipt receipt) (module_error invalid_configuration)
    conclude result
