-- ===== src/Pallet/Audit.antt =====
-- The transaction log against the pools: what a pool has spent is what its records add up to.
use gas_leap.Base.{
  ℕ, ◌+◌, ◌≤◌, ◌<◌, ◌≡◌, refl, none, some, arith, nat_eq, ◌==◌, if◌then◌else◌, u32_max, u64_max,
  u128_max, saturating_add,
}
use gas_leap.Base.StorageMap.{StorageMap, get, get-insert, sum_by, sum_by-insert_new, le-sum_by}
use gas_leap.Types.{PoolInfo, TransactionRecord}
use gas_leap.Frame.{Frame, CurrencyLaws}
use gas_leap.Pallet.{World, Storage}
use gas_leap.Pallet.Change.{
  Change, same, created, funded, configured, authorized, deauthorized, sponsored, new_pool, charge,
  new_record,
}
use gas_leap.Pallet.History.{StorageLayer, Reach, Reach-invariant}
use gas_leap.Pallet.Solvency.{
  backing, IsSolvent, IsBacked, Change-IsBacked, genesis-IsBacked, SparesPools-IsBacked,
  IsBacked-IsSolvent,
}

-- What the pool under an id has spent; 0 where there is none.
abbrev pub spent : ℕ → StorageMap ℕ PoolInfo → ℕ
spent pool_id pools = elim (get pool_id pools) [ none ↦ 0 | some info ↦ info.total_spent ]

-- What a record charges to a pool.
abbrev pub cost_in : ℕ → TransactionRecord → ℕ
cost_in pool_id r = if r.pool_id == pool_id then r.gas_cost else 0

module _ {Ledger : Type 0} where
  -- Ids from the next one on are free, until the counter sticks at its largest value.
  abbrev pub HasFreshPoolIds : Storage Ledger → Type 0
  HasFreshPoolIds s = (p : ℕ) → s.next_pool_id ≤ p → s.next_pool_id < u32_max → get p s.pools ≡ none

  abbrev pub HasFreshTransactionIds : Storage Ledger → Type 0
  HasFreshTransactionIds s =
      (n : ℕ)
      → s.next_transaction_id ≤ n
      → s.next_transaction_id < u64_max
      → get n s.transaction_log ≡ none

  abbrev pub IsAudited : Storage Ledger → Type 0
  IsAudited s =
      s.next_pool_id < u32_max
      → s.next_transaction_id < u64_max
      → (p : ℕ) → spent p s.pools ≡ sum_by (cost_in p) s.transaction_log

module _ {Ledger Origin : Type 0} (frame : Frame Ledger Origin) where
  pub Change-HasFreshPoolIds :
      (s s' : Storage Ledger) → Change frame s s' → HasFreshPoolIds s → HasFreshPoolIds s'
  Change-HasFreshPoolIds s s' (same e) h = rw e h
  Change-HasFreshPoolIds s s' (created who deposit config l r _ e) h = rw e λ p le lt.
      ground (arith, h p, get-insert s.next_pool_id p (new_pool frame s who deposit config) s.pools)
  Change-HasFreshPoolIds s s' (funded q amount info l g _ r e) h = rw e λ p le lt. ground (
    arith,
    h p,
    h q,
    get-insert q p (record info { balance = saturating_add u128_max info.balance amount }) s.pools,
  )
  Change-HasFreshPoolIds s s' (configured q info config g e) h =
      rw e λ p le lt.
        ground (arith, h p, h q, get-insert q p (record info { config = config }) s.pools)
  Change-HasFreshPoolIds s s' (authorized _ _ _ _ e) h = rw e h
  Change-HasFreshPoolIds s s' (deauthorized _ _ _ _ e) h = rw e h
  Change-HasFreshPoolIds s s' (sponsored q who chain bytes cost info g _ _ _ _ k e) h =
      rw e λ p le lt. ground (arith, h p, h q, get-insert q p (charge frame info cost) s.pools)

  pub Change-HasFreshTransactionIds :
      (s s' : Storage Ledger)
      → Change frame s s'
      → HasFreshTransactionIds s
      → HasFreshTransactionIds s'
  Change-HasFreshTransactionIds s s' (same e) h = rw e h
  Change-HasFreshTransactionIds s s' (created who deposit config l r _ e) h = rw e h
  Change-HasFreshTransactionIds s s' (funded q amount info l g _ r e) h = rw e h
  Change-HasFreshTransactionIds s s' (configured q info config g e) h = rw e h
  Change-HasFreshTransactionIds s s' (authorized _ _ _ _ e) h = rw e h
  Change-HasFreshTransactionIds s s' (deauthorized _ _ _ _ e) h = rw e h
  Change-HasFreshTransactionIds s s' (sponsored q who chain bytes cost info g _ _ _ _ k e) h =
      rw e λ n le lt. ground (
        arith,
        h n,
        get-insert s.next_transaction_id n (new_record frame s q who chain bytes cost)
            s.transaction_log,
      )

module _ {Ledger Origin : Type 0} (frame : Frame Ledger Origin) (laws : CurrencyLaws frame) where
  -- A solvent pool's account is a u128: charging it saturates nowhere.
  pub account_fits :
      (s : Storage Ledger) (pool_id : ℕ) (info : PoolInfo)
      → IsSolvent frame laws s
      → get pool_id s.pools ≡ some info
      → info.balance + info.total_spent ≤ u128_max
  account_fits s pool_id info h g = ground (
    arith,
    h info.owner,
    le-sum_by (backing info.owner) pool_id info s.pools g,
    laws.reserved_fits s.ledger info.owner,
  )

  pub Change-IsAudited :
      (s s' : Storage Ledger)
      → Change frame s s'
      → IsSolvent frame laws s
      → HasFreshPoolIds s
      → HasFreshTransactionIds s
      → IsAudited s
      → IsAudited s'
  Change-IsAudited s s' (same e) v f t h = rw e h
  Change-IsAudited s s' (created who deposit config l r _ e) v f t h = rw e λ pools txs p. ground (
    arith,
    h (omega arith) txs p,
    f s.next_pool_id (omega arith) (omega arith),
    get-insert s.next_pool_id p (new_pool frame s who deposit config) s.pools,
  )
  Change-IsAudited s s' (funded q amount info l g _ r e) v f t h = rw e λ pools txs p. ground (
    arith,
    h pools txs p,
    get-insert q p (record info { balance = saturating_add u128_max info.balance amount }) s.pools,
  )
  Change-IsAudited s s' (configured q info config g e) v f t h = rw e λ pools txs p.
      ground (arith, h pools txs p, get-insert q p (record info { config = config }) s.pools)
  Change-IsAudited s s' (authorized _ _ _ _ e) v f t h = rw e h
  Change-IsAudited s s' (deauthorized _ _ _ _ e) v f t h = rw e h
  Change-IsAudited s s' (sponsored q who chain bytes cost info g _ _ _ _ k e) v f t h =
      rw e λ pools txs p. ground (
        arith,
        h pools (omega arith) p,
        account_fits s q info v g,
        get-insert q p (charge frame info cost) s.pools,
        sum_by-insert_new (cost_in p) s.next_transaction_id
            (new_record frame s q who chain bytes cost) s.transaction_log
            (t s.next_transaction_id (omega arith) (omega arith)),
      )

  -- What holds of the books in every reachable state.
  abbrev pub HasSoundBooks : Storage Ledger → Type 0
  HasSoundBooks s =
      IsSolvent frame laws s × HasFreshPoolIds s × HasFreshTransactionIds s × IsAudited s

  pub Reach-HasSoundBooks :
      (layer : StorageLayer Ledger) {w : World Ledger}
      → Reach frame layer w
      → HasSoundBooks w.storage
  unfolding get
  Reach-HasSoundBooks layer {w} r =
      let (v, f, t, h) =
        Reach-invariant frame layer
          (λ s. IsBacked frame laws s × HasFreshPoolIds s × HasFreshTransactionIds s × IsAudited s)
          (λ l b. (
            genesis-IsBacked frame laws layer l b,
            λ p le lt. refl,
            λ n le lt. refl,
            λ pools txs p. refl,
          ))
          (λ s s' c (v, f, t, h). (
            Change-IsBacked frame laws s s' c v,
            Change-HasFreshPoolIds frame s s' c f,
            Change-HasFreshTransactionIds frame s s' c t,
            Change-IsAudited s s' c (IsBacked-IsSolvent frame laws s v) f t h,
          ))
          (λ s n h. h)
          (λ s l spares (v, f, t, h). (SparesPools-IsBacked frame laws layer s l spares v, f, t, h))
          r in
      (IsBacked-IsSolvent frame laws w.storage v, f, t, h)

  -- In every reachable state in which no id counter has reached its end, what a pool has spent is
  -- the sum of the costs of its records in the transaction log.
  pub log_accounts :
      (layer : StorageLayer Ledger) {w : World Ledger}
      → Reach frame layer w
      → w.next_pool_id < u32_max
      → w.next_transaction_id < u64_max
      → (p : ℕ) → spent p w.pools ≡ sum_by (cost_in p) w.transaction_log
  log_accounts layer r pools txs p = (Reach-HasSoundBooks layer r).3 pools txs p
