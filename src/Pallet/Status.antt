-- ===== src/Pallet/Status.antt =====
-- What no call ever does: change the status of a pool or of a record, or track spending.
use gas_leap.Base.{ℕ, [], ◌≡◌, refl, arith, nat_eq, u128_max, saturating_add}
use gas_leap.Base.StorageMap.{insert, Every, insert-Every, get-Every}
use gas_leap.Types.{PoolStatus, PoolInfo, TransactionStatus, TransactionRecord}
use gas_leap.Frame.{Frame}
use gas_leap.Pallet.{World, Storage}
use gas_leap.Pallet.Change.{
  Change, same, created, funded, configured, authorized, deauthorized, sponsored, new_pool, charge,
  new_record,
}
use gas_leap.Pallet.History.{StorageLayer, Reach, Reach-invariant}

abbrev pub IsActivePool : ℕ → PoolInfo → Type 0
IsActivePool pool_id info = info.status ≡ PoolStatus.active

-- A record under its own id that still waits.
abbrev pub IsPendingRecord : ℕ → TransactionRecord → Type 0
IsPendingRecord transaction_id r = (r.status ≡ TransactionStatus.pending) × (r.id ≡ transaction_id)

-- Every pool is active, every record pending, and no spending is tracked.
abbrev pub IsInert : {Ledger : Type 0} → Storage Ledger → Type 0
IsInert s =
    Every IsActivePool s.pools × Every IsPendingRecord s.transaction_log × (s.user_spending ≡ [])

module _ {Ledger Origin : Type 0} (frame : Frame Ledger Origin) where
  pool_write-IsInert :
      (s s' : Storage Ledger) (pool_id : ℕ) (info : PoolInfo)
      → info.status ≡ PoolStatus.active
      → s'.pools ≡ insert pool_id info s.pools
      → s'.transaction_log ≡ s.transaction_log
      → s'.user_spending ≡ s.user_spending
      → IsInert s
      → IsInert s'
  pool_write-IsInert s s' pool_id info a p l u h =
      (rw p (insert-Every IsActivePool pool_id info s.pools a h.0), rw l h.1, rw u h.2)

  pub Change-IsInert : (s s' : Storage Ledger) → Change frame s s' → IsInert s → IsInert s'
  Change-IsInert s s' (same e) h = rw e h
  Change-IsInert s s' (created who deposit config l r _ e) h =
      pool_write-IsInert s s' s.next_pool_id (new_pool frame s who deposit config) refl
        (ground arith) (ground arith) (ground arith) h
  Change-IsInert s s' (funded q amount info l g a r e) h =
      pool_write-IsInert s s' q
        (record info { balance = saturating_add u128_max info.balance amount }) a (ground arith)
        (ground arith) (ground arith) h
  Change-IsInert s s' (configured q info config g e) h =
      pool_write-IsInert s s' q (record info { config = config })
        (get-Every IsActivePool q info s.pools h.0 g) (ground arith) (ground arith) (ground arith) h
  Change-IsInert s s' (authorized _ _ _ _ e) h = rw e h
  Change-IsInert s s' (deauthorized _ _ _ _ e) h = rw e h
  Change-IsInert s s' (sponsored q who chain bytes cost info g a _ _ _ k e) h = rw e (
    insert-Every IsActivePool q (charge frame info cost) s.pools a h.0,
    insert-Every IsPendingRecord s.next_transaction_id (new_record frame s q who chain bytes cost)
        s.transaction_log (refl, refl) h.1,
    h.2,
  )

  -- In every reachable state every pool is active, every record of the log is pending and stands
  -- under its own id, and the map of user spending is empty.
  pub Reach-IsInert :
      (layer : StorageLayer Ledger) {w : World Ledger} → Reach frame layer w → IsInert w.storage
  Reach-IsInert layer =
      Reach-invariant frame layer IsInert (λ l b. (tt, tt, refl)) Change-IsInert (λ s n h. h)
        (λ s l grows h. h)
