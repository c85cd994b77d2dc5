-- ===== src/Tests/Pallets.antt =====
-- The theorems on histories and on sponsoring at concrete inputs.
use gas_leap.Base.{◌+◌, arith, ℕ, ◌+◌, ◌≤◌, ◌≡◌, ◌↔◌, refl, [], true, some, ok, err, arith, nat_eq}
use gas_leap.Base.StorageMap.{get, insert, sum_by}
use gas_leap.Types.{PoolInfo, module_error, chain_not_supported, insufficient_funds}
use gas_leap.Gateway.Fee.{estimate_fee}
use gas_leap.Pallet
use gas_leap.Pallet.{World}
use gas_leap.Pallet.Change.{charge, new_record}
use gas_leap.Pallet.History.{apply}
use gas_leap.Pallet.Solvency.{pools_backed, claims}
use gas_leap.Pallet.Audit.{log_accounts, spent, cost_in}
use gas_leap.Pallet.Conservation.{calls_conserve}
use gas_leap.Pallet.Status.{Reach-IsInert, IsInert}
use gas_leap.Pallet.Sponsoring.{
  IsPayable, sponsor_iff, sponsor_clean_failure, sponsor_dirty_failure,
}
use gas_leap.Pallet.Series.{IsServing, after, pool_serves}
use gas_leap.Pallet.{World}
use gas_leap.Pallet.History.{Reach, next, elsewhere}
use gas_leap.Tests.Setting.{frame, laws, layer, Accounts, update}
use gas_leap.Tests.Scenario.{
  bytes, sponsoring, with_pool, with_record, with_pool-Reach, with_record-Reach, pool, ready,
  creates_id, sponsors_ids, sponsors_held,
}

-- The owner of the pool stands for collator with a bond of 300, and takes 100 of it back.
abbrev bonded : World Accounts
bonded = record with_record {
  storage = record with_record.storage {
    ledger = record with_record.ledger { bonds = update (λ a. 0) 1 300 };
  };
}

abbrev released : World Accounts
released = record bonded {
  storage = record bonded.storage {
    ledger = record bonded.ledger { bonds = update (λ a. 0) 1 200 };
  };
}

released-Reach : Reach frame layer released
released-Reach =
    next {w = bonded}
      (next with_record-Reach (elsewhere bonded.ledger (λ who. ground (arith, sponsors_held who))))
      (elsewhere released.ledger (λ who. ground (arith, sponsors_held who)))

pools_backed_example : claims 1 released.storage + 200 ≤ frame.reserved_balance released.ledger 1
pools_backed_example = pools_backed frame laws layer released-Reach 1

calls_conserve_example :
    frame.reserved_balance with_record.ledger 1 + claims 1 with_pool.storage
    ≡ frame.reserved_balance with_pool.ledger 1 + claims 1 with_record.storage
calls_conserve_example =
    calls_conserve frame laws layer with_pool-Reach (omega (arith, creates_id)) (some 2) sponsoring
      1

log_accounts_example : spent 0 with_record.pools ≡ sum_by (cost_in 0) with_record.transaction_log
log_accounts_example =
    log_accounts frame laws layer with_record-Reach (omega (arith, sponsors_ids))
      (omega (arith, sponsors_ids)) 0

Reach-IsInert_example : IsInert with_record.storage
Reach-IsInert_example = Reach-IsInert frame layer with_record-Reach

pub ready-IsPayable : IsPayable frame (some 2) 0 2006 bytes ready 2 pool 808
unfolding get estimate_fee
ready-IsPayable = record {
  signed = refl;
  found = refl;
  active = refl;
  allowed = refl;
  priced = refl;
  covered = omega arith;
}

sponsor_iff_example :
    ((Pallet.sponsor_transaction frame (some 2) 0 2006 bytes ready).0 ≡ ok tt)
    ↔ ∥ (
        (who : ℕ) × (info : PoolInfo) × (fee : ℕ) × IsPayable frame
          (some 2)
          0
          2006
          bytes
          ready
          who
          info
          fee
        × (true ≡ true)) ∥₁
sponsor_iff_example = sponsor_iff frame (some 2) 0 2006 bytes ready

sponsor_clean_failure_example :
    (Pallet.sponsor_transaction frame (some 2) 0 2000 bytes ready).1 ≡ ready
unfolding Pallet.sponsor_transaction get
sponsor_clean_failure_example =
    sponsor_clean_failure frame (some 2) 0 2000 bytes ready (module_error chain_not_supported) refl
      refl

empty_data-IsPayable : IsPayable frame (some 2) 0 2006 [] ready 2 pool 800
unfolding get estimate_fee
empty_data-IsPayable = record {
  signed = refl;
  found = refl;
  active = refl;
  allowed = refl;
  priced = refl;
  covered = omega arith;
}

sponsor_dirty_failure_example : Pallet.sponsor_transaction frame (some 2) 0 2006 [] ready ≡ (
  err (module_error chain_not_supported),
  record ready {
    storage = record ready.storage {
      pools = insert 0 (charge frame pool 800) ready.pools;
      transaction_log =
          insert 0 (new_record frame ready.storage 0 2 2006 [] 800) ready.transaction_log;
      next_transaction_id = 1;
    };
  },
)
sponsor_dirty_failure_example =
    sponsor_dirty_failure frame (some 2) 0 2006 [] ready 2 pool 800 empty_data-IsPayable refl

ready-IsServing : IsServing frame layer (some 2) 0 2006 bytes ready 2 pool 808
unfolding get estimate_fee
ready-IsServing = record {
  signed = refl;
  found = refl;
  active = refl;
  allowed = refl;
  priced = refl;
  sendable = refl;
  fits = omega arith;
}

-- 2000 units, and a fee of 808.
pool_serves_example :
    (get 0 (after frame layer (some 2) 0 2006 bytes 2 ready).pools
      ≡ some (record pool { balance = 384; total_spent = 1616 }))
    × ((after frame layer (some 2) 0 2006 bytes 2 ready).next_transaction_id ≡ 2)
    × ((apply frame layer (some 2) sponsoring (after frame layer (some 2) 0 2006 bytes 2 ready)).0
        ≡ err (module_error insufficient_funds))
pool_serves_example =
    pool_serves frame layer (some 2) 0 2006 bytes ready 2 pool 808 2 ready-IsServing (omega arith)
      (omega arith) (omega arith)
