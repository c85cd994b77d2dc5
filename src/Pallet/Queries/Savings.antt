-- ===== src/Pallet/Queries/Savings.antt =====
-- `get_user_total_gas_savings`: what it adds up.
use Prim.Native.Nat.{min}
use gas_leap.Base.{
  ℕ, ◌+◌, ◌≤◌, ◌≡◌, refl, List, [], ◌∷◌, ◌&&◌, arith, ◌==◌, if◌then◌else◌, u128_max,
}
use gas_leap.Base.StorageMap.{StorageMap, Every, sum_by, sum_by-Perm}
use gas_leap.Types.{TransactionRecord, is_executed}
use gas_leap.Frame.{Frame}
use gas_leap.Pallet.{World, Storage}
use gas_leap.Pallet.History.{StorageLayer, Reach}
use gas_leap.Pallet.Status.{IsPendingRecord, Reach-IsInert}
use gas_leap.Pallet.Queries.{Iteration, IterationLaws, add_savings, get_user_total_gas_savings}

-- What one record saved a user.
abbrev pub saving : ℕ → TransactionRecord → ℕ
saving user r = if r.user == user && is_executed r.status then r.gas_cost else 0

add_savings-sum :
    (user : ℕ) (l : List (ℕ × TransactionRecord)) (total : ℕ)
    → total ≤ u128_max
    → add_savings user l total ≡ min (total + sum_by (saving user) l) u128_max
unfolding add_savings
add_savings-sum user [] total h = omega arith
add_savings-sum user ((i, r) ∷ l) total h = ground (
  arith,
  add_savings-sum user l
      (if r.user == user && is_executed r.status then min (total + r.gas_cost) u128_max else total),
)

module _ {Ledger : Type 0} (it : Iteration) (laws : IterationLaws it) where
  -- The savings of a user are the costs of the user's executed records, added up and capped at
  -- the largest u128, in whatever order the log is iterated.
  savings-sum :
      (s : Storage Ledger) (user : ℕ)
      → get_user_total_gas_savings it s user ≡ min (sum_by (saving user) s.transaction_log) u128_max
  unfolding get_user_total_gas_savings
  savings-sum s user = omega (
    arith,
    add_savings-sum user (it.iter_log s.transaction_log) 0 (omega arith),
    sum_by-Perm (saving user) (laws.iter_log-perm s.transaction_log),
  )

pending-saving :
    (user : ℕ) (m : StorageMap ℕ TransactionRecord)
    → Every IsPendingRecord m
    → sum_by (saving user) m ≡ 0
pending-saving user [] h = refl
pending-saving user ((i, r) ∷ m) h = ground (arith, pending-saving user m h.1)

module _ {Ledger Origin : Type 0} (frame : Frame Ledger Origin) (layer : StorageLayer Ledger)
    (it : Iteration) (laws : IterationLaws it) where
  -- In every reachable state the savings of every user are 0: no record ever becomes executed.
  pub savings-zero :
      {w : World Ledger}
      → Reach frame layer w
      → (user : ℕ) → get_user_total_gas_savings it w.storage user ≡ 0
  savings-zero {w} r user = omega (
    arith,
    savings-sum it laws w.storage user,
    pending-saving user w.transaction_log (Reach-IsInert frame layer r).1,
  )
