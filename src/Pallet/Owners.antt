-- ===== src/Pallet/Owners.antt =====
-- The index of pools by owner against the pools.
use gas_leap.Base.{
  ℕ, ◌<◌, ◌≡◌, refl, none, some, arith, nat_eq, pair_eq, u32_max, u128_max, saturating_add,
  Bool-cases, ◌==◌, ◌&&◌, inl, inr,
}
use gas_leap.Base.StorageMap.{get, insert, get-insert}
use gas_leap.Types.{PoolInfo}
use gas_leap.Frame.{Frame}
use gas_leap.Pallet.{World, Storage}
use gas_leap.Pallet.Change.{
  Change, same, created, funded, configured, authorized, deauthorized, sponsored, new_pool, charge,
}
use gas_leap.Pallet.History.{StorageLayer, Reach, Reach-invariant}
use gas_leap.Pallet.Audit.{HasFreshPoolIds, Change-HasFreshPoolIds}

module _ {Ledger : Type 0} where
  -- `pool_owners` has the pool under its owner.
  abbrev pub IsIndexed : Storage Ledger → Type 0
  IsIndexed s =
      (p : ℕ) (info : PoolInfo)
      → get p s.pools ≡ some info
      → get (info.owner, p) s.pool_owners ≡ some tt

  -- What `pool_owners` has is a pool of that owner, as long as no id was used twice.
  abbrev pub IsIndexSound : Storage Ledger → Type 0
  IsIndexSound s =
      s.next_pool_id < u32_max
      → (who p : ℕ) → get (who, p) s.pool_owners ≡ some tt
      → (info : PoolInfo) × (get p s.pools ≡ some info) × (info.owner ≡ who)

module _ {Ledger Origin : Type 0} (frame : Frame Ledger Origin) where
  -- A pool that keeps its owner keeps the index.
  rewrite-IsIndexed :
      (s : Storage Ledger) (q : ℕ) (old new : PoolInfo)
      → get q s.pools ≡ some old
      → new.owner ≡ old.owner
      → IsIndexed s
      → IsIndexed (record s { pools = insert q new s.pools })
  rewrite-IsIndexed s q old new g o h p info g' =
      ground (arith, get-insert q p new s.pools, h p info, h q old)

  rewrite-IsIndexSound :
      (s : Storage Ledger) (q : ℕ) (old new : PoolInfo)
      → get q s.pools ≡ some old
      → new.owner ≡ old.owner
      → IsIndexSound s
      → IsIndexSound (record s { pools = insert q new s.pools })
  rewrite-IsIndexSound s q old new g o h lt who p m = elim (Bool-cases (q == p)) [
    | inl e ↦ (new, ground (arith, get-insert q p new s.pools), ground (arith, h lt who p m))
    | inr ne ↦
        let (info, g', o') = h lt who p m in (info, ground (arith, get-insert q p new s.pools), o')
  ]

  Change-IsIndexed : (s s' : Storage Ledger) → Change frame s s' → IsIndexed s → IsIndexed s'
  Change-IsIndexed s s' (same e) h = rw e h
  Change-IsIndexed s s' (created who deposit config l r _ e) h = rw e λ p info g. ground (
    arith,
    h p info,
    get-insert s.next_pool_id p (new_pool frame s who deposit config) s.pools,
    get-insert (who, s.next_pool_id) (info.owner, p) tt s.pool_owners,
  )
  Change-IsIndexed s s' (funded q amount info l g a r e) h = rw e (
      rewrite-IsIndexed s q info
        (record info { balance = saturating_add u128_max info.balance amount }) g refl h)
  Change-IsIndexed s s' (configured q info config g e) h =
      rw e (rewrite-IsIndexed s q info (record info { config = config }) g refl h)
  Change-IsIndexed s s' (authorized _ _ _ _ e) h = rw e h
  Change-IsIndexed s s' (deauthorized _ _ _ _ e) h = rw e h
  Change-IsIndexed s s' (sponsored q who chain bytes cost info g a _ _ _ k e) h =
      rw e (rewrite-IsIndexed s q info (charge frame info cost) g refl h)

  created-IsIndexSound :
      (s : Storage Ledger) (who p' : ℕ) (info' : PoolInfo) (a p : ℕ)
      → info'.owner ≡ who
      → get p' s.pools ≡ none
      → (get (a, p) s.pool_owners ≡ some tt
          → (info : PoolInfo) × (get p s.pools ≡ some info) × (info.owner ≡ a))
      → get (a, p) (insert (who, p') tt s.pool_owners) ≡ some tt
      → (info : PoolInfo) × (get p (insert p' info' s.pools) ≡ some info) × (info.owner ≡ a)
  created-IsIndexSound s who p' info' a p o f h m = elim (Bool-cases (who == a && p' == p)) [
    | inl e ↦ (info', ground (arith, get-insert p' p info' s.pools), ground arith)
    | inr ne ↦
        let (info, g, o') = h (ground (arith, get-insert (who, p') (a, p) tt s.pool_owners)) in
        (info, ground (arith, get-insert p' p info' s.pools), o')
  ]

  Change-IsIndexSound :
      (s s' : Storage Ledger)
      → Change frame s s'
      → HasFreshPoolIds s
      → IsIndexSound s
      → IsIndexSound s'
  Change-IsIndexSound s s' (same e) f h = rw e h
  Change-IsIndexSound s s' (created who deposit config l r _ e) f h = rw e λ lt a p m.
      created-IsIndexSound s who s.next_pool_id (new_pool frame s who deposit config) a p refl
        (f s.next_pool_id (omega arith) (omega arith)) (h (omega arith) a p) m
  Change-IsIndexSound s s' (funded q amount info l g a r e) f h = rw e (
      rewrite-IsIndexSound s q info
        (record info { balance = saturating_add u128_max info.balance amount }) g refl h)
  Change-IsIndexSound s s' (configured q info config g e) f h =
      rw e (rewrite-IsIndexSound s q info (record info { config = config }) g refl h)
  Change-IsIndexSound s s' (authorized _ _ _ _ e) f h = rw e h
  Change-IsIndexSound s s' (deauthorized _ _ _ _ e) f h = rw e h
  Change-IsIndexSound s s' (sponsored q who chain bytes cost info g a _ _ _ k e) f h =
      rw e (rewrite-IsIndexSound s q info (charge frame info cost) g refl h)

  pub Reach-IsIndexed :
      (layer : StorageLayer Ledger) {w : World Ledger} → Reach frame layer w → IsIndexed w.storage
  unfolding get
  Reach-IsIndexed layer =
      Reach-invariant frame layer IsIndexed (λ l b p info g. ground arith) Change-IsIndexed
        (λ s n h. h) (λ s l grows h. h)

  pub Reach-IsIndexSound :
      (layer : StorageLayer Ledger) {w : World Ledger}
      → Reach frame layer w
      → HasFreshPoolIds w.storage × IsIndexSound w.storage
  unfolding get
  Reach-IsIndexSound layer =
      Reach-invariant frame layer (λ s. HasFreshPoolIds s × IsIndexSound s)
        (λ l b. (λ p le lt. refl, λ lt a p m. absurd (ground arith)))
        (λ s s' c h. (Change-HasFreshPoolIds frame s s' c h.0, Change-IsIndexSound s s' c h.0 h.1))
        (λ s n h. h) (λ s l grows h. h)
