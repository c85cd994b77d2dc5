-- ===== src/Tests/Managing.antt =====
-- The theorems on creating and managing pools and on receipts at concrete inputs.
use gas_leap.Base.{ℕ, ◌+◌, ◌≤◌, ◌≡◌, ◌↔◌, refl, [], ◌∷◌, some, ok, err, arith, nat_eq, u32_max}
use gas_leap.Base.StorageMap.{get}
use gas_leap.Types.{TransactionStatus, module_error, not_pool_owner, invalid_configuration}
use gas_leap.Gateway.{updating_status, marking_processed, receipt_processed, ExecutionResult}
use gas_leap.Gateway.Settling.{result_lines}
use gas_leap.Pallet
use gas_leap.Pallet.{World}
use gas_leap.Pallet.Change.{new_pool}
use gas_leap.Pallet.History.{Call, dispatch}
use gas_leap.Pallet.Solvency.{IsSolvent}
use gas_leap.Pallet.Access.{manage_refused}
use gas_leap.Pallet.Creation.{create_iff, create_overwrites, fund_exact}
use gas_leap.Pallet.Receipts.{receipt_lem, first_transaction_unsettled}
use gas_leap.Pallet.Persistence.{pool_persists, Keeps}
use gas_leap.Tests.Setting.{Accounts, frame, laws, layer, moved}
use gas_leap.Tests.Pallets.{ready-IsPayable}
use gas_leap.Tests.Scenario.{
  new_test_ext, bytes, astar_config, fresh, with_record, with_pool-Reach, with_record-Steps, pool,
  first_record, ready, creates, sponsors_ids, receipt,
}

manage_refused_example :
    dispatch frame (some 2) (Call.fund_pool 0 1000) ready
    ≡ (err (module_error not_pool_owner), ready)
unfolding get
manage_refused_example =
    manage_refused frame (some 2) ready (Call.fund_pool 0 1000) 0 (module_error not_pool_owner) refl
      refl

create_iff_example :
    ((Pallet.create_pool frame (some 1) 2000 astar_config fresh).0 ≡ ok tt)
    ↔ ∥ (
        (who : ℕ) × (l : Accounts) × (some 1 ≡ some who)
        × (1000 ≤ 2000)
        × (frame.reserve who 2000 new_test_ext ≡ ok l)) ∥₁
create_iff_example = create_iff frame (some 1) fresh 2000 astar_config

-- The last pool id taken, by account 1; then account 2 creates a pool.
abbrev full : World Accounts
full = record fresh {
  storage = record fresh.storage { pools = (u32_max, pool) ∷ []; next_pool_id = u32_max };
}

create_overwrites_example :
    (get u32_max (Pallet.create_pool frame (some 2) 3000 astar_config full).1.pools
      ≡ some (new_pool frame full.storage 2 3000 astar_config))
    × ((Pallet.create_pool frame (some 2) 3000 astar_config full).1.next_pool_id ≡ u32_max)
unfolding Pallet.create_pool
create_overwrites_example = create_overwrites frame (some 2) full 3000 astar_config 2 refl refl refl

-- Account 1 holds the deposit in reserve.
abbrev funded : World Accounts
funded = record ready { storage = record ready.storage { ledger = moved 1 2000 new_test_ext } }

funded-IsSolvent : IsSolvent frame laws funded.storage
funded-IsSolvent who = ground arith

fund_exact_example :
    let w' = (Pallet.fund_pool frame (some 1) 0 500 funded).1 in
    (get 0 w'.pools ≡ some (record pool { balance = 2500 }))
    × (frame.reserved_balance w'.ledger 1 ≡ 2500)
    × (frame.free_balance w'.ledger 1 + 500 ≡ 8000)
unfolding Pallet.fund_pool get
fund_exact_example = fund_exact frame laws (some 1) funded 0 500 pool funded-IsSolvent refl refl

receipt_lem_example :
    (Pallet.process_receipt frame (some 3) (receipt 1 ExecutionResult.success 800) ready ≡ (
      ok tt,
      record ready {
        lines =
            receipt_processed
            ∷ updating_status 1 TransactionStatus.executed
            ∷ marking_processed 1
            ∷ result_lines ExecutionResult.success (receipt 1 ExecutionResult.success 800);
      },
    ))
    × ((Pallet.process_receipt frame
          (some 3)
          (receipt 1 ExecutionResult.success 800)
          ready).1.storage
        ≡ ready.storage)
receipt_lem_example = receipt_lem frame (some 3) (receipt 1 ExecutionResult.success 800) ready

first_transaction_unsettled_example :
    (get 0 (Pallet.sponsor_transaction frame (some 2) 0 2006 bytes ready).1.transaction_log
      ≡ some first_record)
    × (Pallet.process_receipt frame (some 3) (receipt 0 ExecutionResult.success 800) with_record
        ≡ (err (module_error invalid_configuration), with_record))
first_transaction_unsettled_example =
    first_transaction_unsettled frame (some 2) 0 2006 bytes ready 2 pool 808 (some 3) 3
      (receipt 0 ExecutionResult.success 800) with_record refl ready-IsPayable refl refl refl

pool_persists_example : Keeps 0 pool with_record.storage
pool_persists_example =
    pool_persists frame laws layer with_pool-Reach with_record-Steps (omega (arith, sponsors_ids)) 0
      pool creates
