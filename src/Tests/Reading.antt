-- ===== src/Tests/Reading.antt =====
-- The theorems on the read-only functions at concrete inputs.
use mathlib.Core.List.{Mem}
use gas_leap.Pallet.{World}
use gas_leap.Base.{ℕ, ◌≡◌, ◌↔◌, refl, [], ◌∷◌, some, ok, arith, nat_eq}
use gas_leap.Base.StorageMap.{get}
use gas_leap.Types.{TransactionStatus}
use gas_leap.Pallet.Queries.{
  get_pools_by_owner_account, get_pool_transaction_history, get_user_total_gas_savings,
  estimate_transaction_gas_cost,
}
use gas_leap.Pallet.Queries.ByOwner.{pools_by_owner_exact}
use gas_leap.Pallet.Queries.Savings.{savings-zero}
use gas_leap.Pallet.Queries.Transactions.{history-take}
use gas_leap.Pallet.Queries.Quote.{quote_charged}
use gas_leap.Pallet
use gas_leap.Gateway.Fee.{estimate_fee}
use gas_leap.Gateway.Send.{send_cross_chain_transaction}
use gas_leap.Tests.Setting.{Accounts, frame, layer, order, order_laws}
use gas_leap.Tests.Scenario.{
  with_record, with_record-Reach, pool, charged_pool, first_record, ready, sponsors_ids, bytes,
}

pools_by_owner_exact_example :
    Mem (0, charged_pool) (get_pools_by_owner_account order with_record.storage 1)
    ↔ ((get 0 with_record.pools ≡ some charged_pool) × (◌≡◌ {A = ℕ} 1 1))
pools_by_owner_exact_example =
    pools_by_owner_exact frame layer order order_laws with_record-Reach
      (omega (arith, sponsors_ids)) 1 0 charged_pool

-- The pool and its record, the latter executed: no call makes it so.
abbrev executed : World Accounts
executed = record ready {
  storage = record ready.storage {
    transaction_log = (0, record first_record { status = TransactionStatus.executed }) ∷ [];
  };
}

savings-zero_example : get_user_total_gas_savings order with_record.storage 2 ≡ 0
savings-zero_example = savings-zero frame layer order order_laws with_record-Reach 2

-- The limit 0 gives a record all the same.
history-take_example :
    get_pool_transaction_history order executed.storage 0 0
    ≡ record first_record { status = TransactionStatus.executed } ∷ []
history-take_example = history-take order executed.storage 0 0

pool_found : get 0 ready.pools ≡ some pool
unfolding get
pool_found = refl

sponsoring_succeeds : (Pallet.sponsor_transaction frame (some 2) 0 2006 bytes ready).0 ≡ ok tt
unfolding Pallet.sponsor_transaction get estimate_fee send_cross_chain_transaction
sponsoring_succeeds = refl

quote_charged_example :
    get 0 (Pallet.sponsor_transaction frame (some 2) 0 2006 bytes ready).1.pools ≡ some charged_pool
unfolding estimate_transaction_gas_cost estimate_fee
quote_charged_example =
    quote_charged frame (some 2) 0 2006 bytes ready pool pool_found sponsoring_succeeds
