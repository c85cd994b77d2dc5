-- ===== src/Pallet/Conservation.antt =====
-- What one call moves: the currency's reserves and the pools' accounts, exactly.
use gas_leap.Base.{
  ℕ, ◌+◌, ◌<◌, ◌≤◌, ◌≡◌, some, ok, arith, nat_eq, ◌==◌, if◌then◌else◌, u32_max, u128_max,
  saturating_add,
}
use gas_leap.Base.StorageMap.{get, sum_by-insert, sum_by-insert_new, le-sum_by}
use gas_leap.Types.{PoolInfo}
use gas_leap.Frame.{Frame, CurrencyLaws}
use gas_leap.Pallet.{World, Storage}
use gas_leap.Pallet.Change.{
  Change, same, created, funded, configured, authorized, deauthorized, sponsored, new_pool, charge,
}
use gas_leap.Pallet.History.{StorageLayer, Reach, Call, apply, apply-Change}
use gas_leap.Pallet.Solvency.{backing, claims}
use gas_leap.Pallet.Audit.{HasSoundBooks, Reach-HasSoundBooks, account_fits}

module _ {Ledger Origin : Type 0} (frame : Frame Ledger Origin) (laws : CurrencyLaws frame) where
  -- What the reserve of an account grew by, its pools' accounts grew by, and conversely.
  abbrev pub IsBalanced : ℕ → Storage Ledger → Storage Ledger → Type 0
  IsBalanced who s s' =
      frame.reserved_balance s'.ledger who + claims who s
      ≡ frame.reserved_balance s.ledger who + claims who s'

  reserve-balances :
      (who amount : ℕ) (l l' : Ledger) (a before after : ℕ)
      → frame.reserve who amount l ≡ ok l'
      → after ≡ before + (if who == a then amount else 0)
      → frame.reserved_balance l' a + before ≡ frame.reserved_balance l a + after
  reserve-balances who amount l l' a before after r k =
      ground (arith, laws.reserve_moves who amount l l' r, laws.reserve_others who amount l l' a r)

  -- Funding saturates nowhere: the owner's reserve is a u128.
  funded_fits :
      (s : Storage Ledger) (p amount : ℕ) (info : PoolInfo) (l : Ledger)
      → HasSoundBooks frame laws s
      → get p s.pools ≡ some info
      → frame.reserve info.owner amount s.ledger ≡ ok l
      → info.balance + info.total_spent + amount ≤ u128_max
  funded_fits s p amount info l v g r = ground (
    arith,
    v.0 info.owner,
    le-sum_by (backing info.owner) p info s.pools g,
    laws.reserve_moves info.owner amount s.ledger l r,
    laws.reserved_fits l info.owner,
  )

  Change-IsBalanced :
      (s s' : Storage Ledger)
      → Change frame s s'
      → HasSoundBooks frame laws s
      → s.next_pool_id < u32_max
      → (a : ℕ) → IsBalanced a s s'
  Change-IsBalanced s s' (same e) v lt a = rw e (omega arith)
  Change-IsBalanced s s' (created who deposit config l r _ e) v lt a = rw e (
      reserve-balances who deposit s.ledger l a (claims a s) _ r (
        ground (
          arith,
          sum_by-insert_new (backing a) s.next_pool_id (new_pool frame s who deposit config) s.pools
              (v.1 s.next_pool_id (omega arith) lt),
        )))
  Change-IsBalanced s s' (funded p amount info l g _ r e) v lt a = rw e (
      reserve-balances info.owner amount s.ledger l a (claims a s) _ r (
        ground (
          arith,
          funded_fits s p amount info l v g r,
          sum_by-insert (backing a) p
              (record info { balance = saturating_add u128_max info.balance amount }) info s.pools
              g,
        )))
  Change-IsBalanced s s' (configured p info config g e) v lt a =
      rw e (
        ground
          (arith, sum_by-insert (backing a) p (record info { config = config }) info s.pools g))
  Change-IsBalanced s s' (authorized _ _ _ _ e) v lt a = rw e (omega arith)
  Change-IsBalanced s s' (deauthorized _ _ _ _ e) v lt a = rw e (omega arith)
  Change-IsBalanced s s' (sponsored p who chain bytes cost info g _ _ _ _ k e) v lt a = rw e (
      ground (
        arith,
        account_fits frame laws s p info v.0 g,
        sum_by-insert (backing a) p (charge frame info cost) info s.pools g,
      ))

  -- In every reachable state in which the pool ids have not run out, every call, successful or not,
  -- raises the reserved balance of each account by exactly what it raises the balances and spending
  -- of that account's pools: no unit is lost between the currency and the pools, and none appears.
  pub calls_conserve :
      (layer : StorageLayer Ledger) {w : World Ledger}
      → Reach frame layer w
      → w.next_pool_id < u32_max
      → (o : Origin) (c : Call) (who : ℕ)
      → frame.reserved_balance (apply frame layer o c w).1.ledger who + claims who w.storage
        ≡ frame.reserved_balance w.ledger who + claims who (apply frame layer o c w).1.storage
  calls_conserve layer {w} r lt o c who =
      Change-IsBalanced w.storage _ (apply-Change frame layer o c w)
        (Reach-HasSoundBooks frame laws layer r) lt who
