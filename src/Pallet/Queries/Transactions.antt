-- ===== src/Pallet/Queries/Transactions.antt =====
-- `get_pool_transaction_history`: which records it returns.
use Prim.Native.Nat.{max}
use gas_leap.Base.{ℕ, zero, suc, ◌+◌, ◌-◌, ◌≡◌, refl, List, [], ◌∷◌, arith, ◌==◌, if◌then◌else◌}
use gas_leap.Types.{TransactionRecord}
use gas_leap.Pallet.{Storage}
use gas_leap.Pallet.Queries.{Iteration, collect_history, get_pool_transaction_history}

abbrev pub take {ℓ} : {A : Type ℓ} → ℕ → List A → List A
take zero xs = []
take (suc n) [] = []
take (suc n) (x ∷ xs) = x ∷ take n xs

-- The records of a pool, in the order of the entries.
abbrev pub records_of : ℕ → List (ℕ × TransactionRecord) → List TransactionRecord
records_of pool_id [] = []
records_of pool_id ((_, r) ∷ l) =
    if r.pool_id == pool_id then r ∷ records_of pool_id l else records_of pool_id l

collect_history-take :
    (n pool_id limit : ℕ) (l : List (ℕ × TransactionRecord)) (count : ℕ)
    → suc n ≡ max (limit - count) 1
    → collect_history pool_id limit l count ≡ take (suc n) (records_of pool_id l)
unfolding collect_history
collect_history-take zero pool_id limit [] count h = refl
collect_history-take (suc n) pool_id limit [] count h = refl
collect_history-take zero pool_id limit ((i, r) ∷ l) count h =
    ground (arith, collect_history-take zero pool_id limit l count h)
collect_history-take (suc n) pool_id limit ((i, r) ∷ l) count h = ground (
  arith,
  collect_history-take (suc n) pool_id limit l count h,
  collect_history-take n pool_id limit l (count + 1),
)

module _ {Ledger : Type 0} (it : Iteration) where
  -- The history of a pool is the first `limit` records of the pool in the order of iteration;
  -- for the limit 0 it is the first record, as for the limit 1.
  pub history-take :
      (s : Storage Ledger) (pool_id limit : ℕ)
      → get_pool_transaction_history it s pool_id limit
        ≡ take (max limit 1) (records_of pool_id (it.iter_log s.transaction_log))
  unfolding get_pool_transaction_history
  history-take s pool_id limit =
      let counted : max limit 1 ≡ suc (max limit 1 - 1) = omega arith in
      rw counted (
        collect_history-take (max limit 1 - 1) pool_id limit (it.iter_log s.transaction_log) 0
          (omega arith))
