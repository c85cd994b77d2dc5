-- ===== src/Tests/Books.antt =====
-- The theorems on events, ids, references, widths, budgets and reads at concrete inputs.
use gas_leap.Base.{
  ℕ, ◌+◌, ◌*◌, ◌≡◌, ◌≤◌, u32_max, u64_max, u128_max, List, [], ◌∷◌, Option, refl, some, is_some,
  ltb, arith, nat_eq, pair_eq,
}
use gas_leap.Base.StorageMap.{get, insert}
use gas_leap.Pallet.Widths.{RecordFits, numbers_fit}
use gas_leap.Types.{PoolInfo, AuthorizationType, type_eq}
use gas_leap.Pallet.Integrity.{has_pool, RecordRefers, RuleRefers, ids_and_references}
use gas_leap.Pallet.Indexer.{blank, replay, account_of, transaction_of}
use gas_leap.Pallet.Indexer.Watching.{begun, on, events_tell_books}
use gas_leap.Pallet
use gas_leap.Gateway.Fee.{estimate_fee}
use gas_leap.Gateway.Send.{send_cross_chain_transaction}
use gas_leap.Pallet.History.{Call, dispatch}
use gas_leap.Pallet.Exhaustion.{balance_of, run, payments, payments_end}
use gas_leap.Weights.{unit_weight, substrate_weight, call_weight}
use gas_leap.Weights.Covering.{overlay, written, write_count}
use gas_leap.Pallet.Budget.{transactions_of, spending_bounds}
use gas_leap.Weights.Reading.{read, read_count, replaced, shown, accesses_covered}
use gas_leap.Tests.Setting.{frame, laws, layer, settle}
use gas_leap.Tests.Scenario.{
  new_test_ext, creation, sponsoring, ready, charged_pool, sponsors, with_record, with_record-Reach,
  sponsors_ids, with_pool,
}

ids_and_references_example :
    ((p : ℕ) → has_pool with_record.storage p ≡ ltb p with_record.next_pool_id)
    × ((n : ℕ)
        → is_some (get n with_record.transaction_log) ≡ ltb n with_record.next_transaction_id)
    × ((n : ℕ) → RecordRefers with_record.storage n (get n with_record.transaction_log))
    × ((p : ℕ) (t : AuthorizationType)
        → RuleRefers with_record.storage p t (get (p, t) with_record.pool_authorizations))
ids_and_references_example =
    ids_and_references frame layer with_record-Reach (omega (arith, sponsors_ids))
      (omega (arith, sponsors_ids))

with_pool_block : 1 ≤ with_pool.block_number
unfolding Pallet.create_pool settle
with_pool_block = omega arith

events_tell_books_example :
    let index = replay with_record.events blank in
    ((p : ℕ) → get p index.accounts ≡ account_of (get p with_record.pools))
    × ((n : ℕ) → get n index.transactions ≡ transaction_of (get n with_record.transaction_log))
    × ((p : ℕ) (t : AuthorizationType)
        → is_some (get (p, t) index.rules) ≡ is_some (get (p, t) with_record.pool_authorizations))
events_tell_books_example = events_tell_books frame layer laws (
    on (on (begun new_test_ext 1 []) (omega arith) (some 1) creation) with_pool_block (some 2)
      sponsoring)

accesses_covered_example :
    ((dispatch frame (some 2) sponsoring ready).1.storage
      ≡ overlay
          (written sponsoring)
          ready.storage
          (dispatch frame (some 2) sponsoring ready).1.storage)
    × (shown (
          dispatch frame (some 2) sponsoring (replaced (read sponsoring) with_record.storage ready))
        ≡ shown (dispatch frame (some 2) sponsoring ready))
    × (3 ≤ call_weight (unit_weight write_count) sponsoring)
    × (3 ≤ call_weight (substrate_weight write_count) sponsoring)
    × (2 ≤ call_weight (unit_weight read_count) sponsoring)
    × (2 ≤ call_weight (substrate_weight read_count) sponsoring)
accesses_covered_example = accesses_covered frame (some 2) sponsoring ready with_record.storage

spending_bounds_example :
    (802 * transactions_of 0 with_record.transaction_log ≤ 808)
    × (808 ≤ 3248 * transactions_of 0 with_record.transaction_log)
    × (1192
          + 802 * transactions_of 0 with_record.transaction_log
          + frame.reserved_by_others with_record.ledger 1
        ≤ frame.reserved_balance with_record.ledger 1)
spending_bounds_example =
    spending_bounds frame laws layer with_record-Reach (omega (arith, sponsors_ids))
      (omega (arith, sponsors_ids)) 0 charged_pool sponsors

numbers_fit_example :
    (with_record.next_pool_id ≤ u32_max)
    × (with_record.next_transaction_id ≤ u64_max)
    × ((n : ℕ) → RecordFits (get n with_record.transaction_log))
    × ((p : ℕ) (info : PoolInfo)
        → get p with_record.pools ≡ some info
        → info.balance + info.total_spent ≤ u128_max)
numbers_fit_example = numbers_fit frame laws layer with_record-Reach

abbrev thrice : List (Option ℕ × Call)
thrice = (some 2, sponsoring) ∷ (some 3, sponsoring) ∷ (some 2, sponsoring) ∷ []

-- A pool of 2000 pays for 2 of 3 transactions at 808.
payments_end_example :
    balance_of 0 (run frame layer thrice with_pool).pools
      + 802 * payments frame layer 0 thrice with_pool
    ≤ balance_of 0 with_pool.pools
payments_end_example = payments_end frame layer 0 thrice with_pool refl

payments_of_thrice : payments frame layer 0 thrice with_pool ≡ 2
unfolding Pallet.create_pool Pallet.sponsor_transaction settle get insert estimate_fee
    send_cross_chain_transaction
payments_of_thrice = refl
