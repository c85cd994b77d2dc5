-- ===== src/Pallet/Solvency.antt =====
-- What the pools promise, against what the currency holds in reserve for their owners.
use gas_leap.Base.{
  ℕ, ◌+◌, ◌≤◌, ◌≡◌, ok, arith, nat_eq, ◌==◌, if◌then◌else◌, u128_max, saturating_add,
}
use gas_leap.Base.StorageMap.{sum_by, sum_by-insert, sum_by-insert-le}
use gas_leap.Types.{PoolInfo}
use gas_leap.Frame.{Frame, CurrencyLaws}
use gas_leap.Pallet.{World, Storage}
use gas_leap.Pallet.Change.{
  Change, same, created, funded, configured, authorized, deauthorized, sponsored, new_pool, charge,
}
use gas_leap.Pallet.History.{StorageLayer, Reach, Reach-invariant, genesis, SparesPools}

-- What a pool of `who` accounts for: what it can spend, and what it has spent.
abbrev pub backing : ℕ → PoolInfo → ℕ
backing who info = if info.owner == who then info.balance + info.total_spent else 0

abbrev pub claims : {Ledger : Type 0} → ℕ → Storage Ledger → ℕ
claims who s = sum_by (backing who) s.pools

module _ {Ledger Origin : Type 0} (frame : Frame Ledger Origin) (laws : CurrencyLaws frame) where
  abbrev pub IsSolvent : Storage Ledger → Type 0
  IsSolvent s = (who : ℕ) → claims who s ≤ frame.reserved_balance s.ledger who

  -- The same besides what other pallets have reserved.
  abbrev pub IsBacked : Storage Ledger → Type 0
  IsBacked s =
      (who : ℕ)
      → claims who s + frame.reserved_by_others s.ledger who ≤ frame.reserved_balance s.ledger who

  -- A reserve for `who` covers a rise of the claims of `who` by its amount, and nobody else's.
  reserve-covers :
      (who amount : ℕ) (l l' : Ledger) (a before after : ℕ)
      → frame.reserve who amount l ≡ ok l'
      → before + frame.reserved_by_others l a ≤ frame.reserved_balance l a
      → after ≤ before + (if who == a then amount else 0)
      → after + frame.reserved_by_others l' a ≤ frame.reserved_balance l' a
  reserve-covers who amount l l' a before after r h k = ground (
    arith,
    laws.reserve_moves who amount l l' r,
    laws.reserve_others who amount l l' a r,
    laws.reserve_own who amount l l' a r,
  )

  pub Change-IsBacked : (s s' : Storage Ledger) → Change frame s s' → IsBacked s → IsBacked s'
  Change-IsBacked s s' (same e) h = rw e h
  Change-IsBacked s s' (created who deposit config l r _ e) h = rw e λ a.
      reserve-covers who deposit s.ledger l a (claims a s) _ r (h a) (
        ground (
          arith,
          sum_by-insert-le (backing a) s.next_pool_id (new_pool frame s who deposit config) s.pools,
        ))
  Change-IsBacked s s' (funded pool_id amount info l g _ r e) h = rw e λ a.
      reserve-covers info.owner amount s.ledger l a (claims a s) _ r (h a) (
        ground (
          arith,
          sum_by-insert (backing a) pool_id
              (record info { balance = saturating_add u128_max info.balance amount }) info s.pools
              g,
        ))
  Change-IsBacked s s' (configured pool_id info config g e) h = rw e λ a. ground (
    arith,
    sum_by-insert (backing a) pool_id (record info { config = config }) info s.pools g,
    h a,
  )
  Change-IsBacked s s' (authorized _ _ _ _ e) h = rw e h
  Change-IsBacked s s' (deauthorized _ _ _ _ e) h = rw e h
  Change-IsBacked s s' (sponsored pool_id who chain bytes cost info g _ _ _ _ k e) h = rw e λ a.
      ground (arith, sum_by-insert (backing a) pool_id (charge frame info cost) info s.pools g, h a)

  -- A new chain has no pools, and what others do spares the pools.
  pub genesis-IsBacked :
      (layer : StorageLayer Ledger) (l : Ledger) (block : ℕ)
      → IsBacked (genesis frame layer l block)
  genesis-IsBacked layer l block a = omega (arith, laws.others_included l a)

  pub SparesPools-IsBacked :
      (layer : StorageLayer Ledger) (s : Storage Ledger) (l : Ledger)
      → SparesPools frame layer s.ledger l
      → IsBacked s
      → IsBacked (record s { ledger = l })
  SparesPools-IsBacked layer s l spares h a = omega (arith, h a, spares a)

  pub IsBacked-IsSolvent : (s : Storage Ledger) → IsBacked s → IsSolvent s
  IsBacked-IsSolvent s h a = omega (arith, h a)

  -- In every state that the chain reaches while other pallets release and slash only what they have
  -- reserved themselves, what the pools of an account can spend and have spent together, and what
  -- other pallets have reserved of it, are covered by what the currency holds in reserve for that
  -- account.
  pub pools_backed :
      (layer : StorageLayer Ledger) {w : World Ledger}
      → Reach frame layer w
      → (who : ℕ)
      → claims who w.storage + frame.reserved_by_others w.ledger who
        ≤ frame.reserved_balance w.ledger who
  pools_backed layer =
      Reach-invariant frame layer IsBacked (genesis-IsBacked layer) Change-IsBacked (λ s n h. h)
        (SparesPools-IsBacked layer)
