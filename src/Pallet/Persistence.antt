-- ===== src/Pallet/Persistence.antt =====
-- What a pool keeps over every history.
use gas_leap.Base.{
  ℕ, ◌+◌, ◌≤◌, ◌<◌, ◌≡◌, some, arith, ◌==◌, nat_eq, u32_max, u128_max, saturating_add, Bool-cases,
  inl, inr,
}
use gas_leap.Base.StorageMap.{get, insert, get-insert}
use gas_leap.Types.{PoolInfo}
use gas_leap.Frame.{Frame, CurrencyLaws}
use gas_leap.Pallet.{World, Storage}
use gas_leap.Pallet.Change.{
  Change, same, created, funded, configured, authorized, deauthorized, sponsored, new_pool, charge,
}
use gas_leap.Pallet.History.{
  StorageLayer, Reach, Reach-Steps, Step, called, next_block, elsewhere, Steps, stay, more,
  apply-Change,
}
use gas_leap.Pallet.Audit.{account_fits, HasSoundBooks, Reach-HasSoundBooks}

-- The pool has its owner and its birth, has spent no less, and its account is no smaller.
pub record Continues (before after : PoolInfo) : Type 0 where
  pub owner : after.owner ≡ before.owner
  pub birth : after.created_at ≡ before.created_at
  pub spending : before.total_spent ≤ after.total_spent
  pub account : before.balance + before.total_spent ≤ after.balance + after.total_spent

abbrev pub Keeps : {Ledger : Type 0} → ℕ → PoolInfo → Storage Ledger → Type 0
Keeps p info s = (info' : PoolInfo) × (get p s.pools ≡ some info') × Continues info info'

Continues-refl : (info : PoolInfo) → Continues info info
Continues-refl info = omega arith

Continues-trans : (a b c : PoolInfo) → Continues a b → Continues b c → Continues a c
Continues-trans a b c h k = ground arith

-- A write to one pool that continues it keeps every pool.
write-Keeps :
    {Ledger : Type 0} (s : Storage Ledger) (q : ℕ) (old new : PoolInfo) (p : ℕ) (info : PoolInfo)
    → get q s.pools ≡ some old
    → Continues old new
    → get p s.pools ≡ some info
    → (info' : PoolInfo) × (get p (insert q new s.pools) ≡ some info') × Continues info info'
write-Keeps s q old new p info h c g = elim (Bool-cases (q == p)) [
  | inl e ↦ (new, ground (arith, get-insert q p new s.pools), ground arith)
  | inr e ↦ (info, ground (arith, get-insert q p new s.pools), Continues-refl info)
]

module _ {Ledger Origin : Type 0} (frame : Frame Ledger Origin) (laws : CurrencyLaws frame) where
  Change-Keeps :
      (s s' : Storage Ledger)
      → Change frame s s'
      → HasSoundBooks frame laws s
      → s.next_pool_id < u32_max
      → (p : ℕ) (info : PoolInfo) → get p s.pools ≡ some info
      → Keeps p info s'
  Change-Keeps s s' (same e) v lt p info g = rw e (info, g, Continues-refl info)
  Change-Keeps s s' (created who deposit config l r _ e) v lt p info g = rw e (
    info,
    ground (
      arith,
      get-insert s.next_pool_id p (new_pool frame s who deposit config) s.pools,
      v.1 s.next_pool_id (omega arith) lt,
    ),
    Continues-refl info,
  )
  Change-Keeps s s' (funded q amount i l h a r e) v lt p info g = rw e (
      write-Keeps s q i (record i { balance = saturating_add u128_max i.balance amount }) p info h
        (omega (arith, account_fits frame laws s q i v.0 h)) g)
  Change-Keeps s s' (configured q i config h e) v lt p info g =
      rw e (write-Keeps s q i (record i { config = config }) p info h (omega arith) g)
  Change-Keeps s s' (authorized _ _ _ _ e) v lt p info g = rw e (info, g, Continues-refl info)
  Change-Keeps s s' (deauthorized _ _ _ _ e) v lt p info g = rw e (info, g, Continues-refl info)
  Change-Keeps s s' (sponsored q who chain bytes cost i h a _ _ _ k e) v lt p info g = rw e (
      write-Keeps s q i (charge frame i cost) p info h
        (omega (arith, account_fits frame laws s q i v.0 h)) g)

  -- The counter of pool ids never falls.
  Change-next_pool_id :
      (s s' : Storage Ledger)
      → Change frame s s'
      → s'.next_pool_id < u32_max
      → s.next_pool_id < u32_max
  Change-next_pool_id s s' (same e) lt = ground arith
  Change-next_pool_id s s' (created who deposit config l r _ e) lt = ground arith
  Change-next_pool_id s s' (funded q amount i l h a r e) lt = ground arith
  Change-next_pool_id s s' (configured q i config h e) lt = ground arith
  Change-next_pool_id s s' (authorized q i rule h e) lt = ground arith
  Change-next_pool_id s s' (deauthorized q i t h e) lt = ground arith
  Change-next_pool_id s s' (sponsored q who chain bytes cost i h a _ _ _ k e) lt = ground arith

module _ {Ledger Origin : Type 0} (frame : Frame Ledger Origin) (laws : CurrencyLaws frame)
    (layer : StorageLayer Ledger) where
  Step-next_pool_id :
      {w w' : World Ledger}
      → Step frame layer w w'
      → w'.next_pool_id < u32_max
      → w.next_pool_id < u32_max
  Step-next_pool_id {w} (called o c) lt =
      Change-next_pool_id frame laws w.storage _ (apply-Change frame layer o c w) lt
  Step-next_pool_id (next_block n) lt = lt
  Step-next_pool_id (elsewhere l grows) lt = lt

  Step-Keeps :
      {w w' : World Ledger}
      → Step frame layer w w'
      → HasSoundBooks frame laws w.storage
      → w.next_pool_id < u32_max
      → (p : ℕ) (info : PoolInfo) → get p w.pools ≡ some info
      → Keeps p info w'.storage
  Step-Keeps {w} (called o c) v lt p info g =
      Change-Keeps frame laws w.storage _ (apply-Change frame layer o c w) v lt p info g
  Step-Keeps (next_block n) v lt p info g = (info, g, Continues-refl info)
  Step-Keeps (elsewhere l grows) v lt p info g = (info, g, Continues-refl info)

  -- Over every history from a reachable state, as long as the pool ids do not run out, a pool stays:
  -- its owner and its block of creation are the same, it has spent no less, and its balance and
  -- spending together have not shrunk.
  pub pool_persists :
      {w w' : World Ledger}
      → Reach frame layer w
      → Steps frame layer w w'
      → w'.next_pool_id < u32_max
      → (p : ℕ) (info : PoolInfo) → get p w.pools ≡ some info
      → Keeps p info w'.storage
  pool_persists r stay lt p info g = (info, g, Continues-refl info)
  pool_persists r (more steps step) lt p info g =
      let before = Step-next_pool_id step lt in
      let (i, g', c) = pool_persists r steps before p info g in
      let books = Reach-HasSoundBooks frame laws layer (Reach-Steps frame layer r steps) in
      let (i', g'', c') = Step-Keeps step books before p i g' in
      (i', g'', Continues-trans info i i' c c')
