-- ===== src/Pallet/Widths.antt =====
-- The widths of the stored numbers. The model computes with natural numbers: what is stored is never
-- wider than the type that pallets/sponsorship/src/lib.rs gives it.
use gas_leap.Base.{
  ℕ, ◌+◌, ◌≤◌, ◌≡◌, ap, ◌∙◌, Bool, true, false, Option, none, some, arith, nat_eq, ◌==◌,
  if◌then◌else◌, u32_max, u64_max, u128_max,
}
use gas_leap.Base.StorageMap.{get, get-insert}
use gas_leap.Types.{PoolInfo, TransactionRecord}
use gas_leap.Frame.{Frame, CurrencyLaws}
use gas_leap.Pallet.{World, Storage}
use gas_leap.Pallet.Change.{
  Change, same, created, funded, configured, authorized, deauthorized, sponsored, new_record,
}
use gas_leap.Pallet.History.{StorageLayer, Reach, Reach-invariant}
use gas_leap.Pallet.Solvency.{
  IsSolvent, IsBacked, Change-IsBacked, genesis-IsBacked, SparesPools-IsBacked, IsBacked-IsSolvent,
}
use gas_leap.Pallet.Audit.{account_fits}

abbrev pub RecordFits : Option TransactionRecord → Type 0
RecordFits none = Unit
RecordFits (some r) = (r.id ≤ u64_max) × (r.gas_cost ≤ u128_max)

abbrev CountersFit : {Ledger : Type 0} → Storage Ledger → Type 0
CountersFit s = (s.next_pool_id ≤ u32_max) × (s.next_transaction_id ≤ u64_max)

RecordFits-if :
    (r : TransactionRecord) (b : Bool) (o : Option TransactionRecord)
    → RecordFits (some r)
    → RecordFits o
    → RecordFits (if b then some r else o)
RecordFits-if r true o new old = new
RecordFits-if r false o new old = old

module _ {Ledger Origin : Type 0} (frame : Frame Ledger Origin) (laws : CurrencyLaws frame) where
  Change-CountersFit : (s s' : Storage Ledger) → Change frame s s' → CountersFit s → CountersFit s'
  Change-CountersFit s s' (same e) h = rw e h
  Change-CountersFit s s' (created _ _ _ _ _ _ e) h = rw e (ground arith)
  Change-CountersFit s s' (funded _ _ _ _ _ _ _ e) h = rw e h
  Change-CountersFit s s' (configured _ _ _ _ e) h = rw e h
  Change-CountersFit s s' (authorized _ _ _ _ e) h = rw e h
  Change-CountersFit s s' (deauthorized _ _ _ _ e) h = rw e h
  Change-CountersFit s s' (sponsored _ _ _ _ _ _ _ _ _ _ _ _ e) h = rw e (ground arith)

  RecordsFit : Storage Ledger → Type 0
  RecordsFit s = (n : ℕ) → RecordFits (get n s.transaction_log)

  Change-RecordsFit :
      (s s' : Storage Ledger)
      → Change frame s s'
      → IsSolvent frame laws s
      → CountersFit s
      → RecordsFit s
      → RecordsFit s'
  unfolding RecordsFit
  Change-RecordsFit s s' (same e) solvent c h = rw e h
  Change-RecordsFit s s' (created _ _ _ _ _ _ e) solvent c h = rw e h
  Change-RecordsFit s s' (funded _ _ _ _ _ _ _ e) solvent c h = rw e h
  Change-RecordsFit s s' (configured _ _ _ _ e) solvent c h = rw e h
  Change-RecordsFit s s' (authorized _ _ _ _ e) solvent c h = rw e h
  Change-RecordsFit s s' (deauthorized _ _ _ _ e) solvent c h = rw e h
  Change-RecordsFit s s' (sponsored p who chain bytes cost info g a _ _ _ k e) solvent c h = λ n.
      let r = new_record frame s p who chain bytes cost in
      rw
        (ap (λ x. get n x.transaction_log) e
          ∙ get-insert s.next_transaction_id n r s.transaction_log)
        (RecordFits-if r (s.next_transaction_id == n) (get n s.transaction_log)
          (c.1, omega (arith, k, account_fits frame laws s p info solvent g)) (h n))

  -- In every reachable state the next pool id is a u32, the next transaction id and the id of every
  -- record are a u64, and the cost of every record is a u128. So is what a pool can spend and has
  -- spent, both together.
  pub numbers_fit :
      (layer : StorageLayer Ledger) {w : World Ledger}
      → Reach frame layer w
      → (w.next_pool_id ≤ u32_max)
        × (w.next_transaction_id ≤ u64_max)
        × ((n : ℕ) → RecordFits (get n w.transaction_log))
        × ((p : ℕ) (info : PoolInfo)
            → get p w.pools ≡ some info
            → info.balance + info.total_spent ≤ u128_max)
  unfolding get RecordsFit
  numbers_fit layer {w} r =
      let (backed, counters, records) =
        Reach-invariant frame layer (λ s. IsBacked frame laws s × CountersFit s × RecordsFit s)
          (λ l b. (genesis-IsBacked frame laws layer l b, (omega arith, omega arith), λ n. tt))
          (λ s s' c (v, counters, records). (
            Change-IsBacked frame laws s s' c v,
            Change-CountersFit s s' c counters,
            Change-RecordsFit s s' c (IsBacked-IsSolvent frame laws s v) counters records,
          ))
          (λ s n h. h)
          (λ s l spares (v, c, h). (SparesPools-IsBacked frame laws layer s l spares v, c, h)) r in
      (
        counters.0,
        counters.1,
        records,
        λ p info g.
            account_fits frame laws w.storage p info
              (IsBacked-IsSolvent frame laws w.storage backed) g,
      )
