-- ===== src/Pallet/Budget.antt =====
-- What a sponsored transaction costs at least and at most, and how many a pool can pay for.
use gas_leap.Base.{
  ℕ, ◌+◌, ◌*◌, ◌≤◌, ◌<◌, ◌≡◌, List, [], ◌∷◌, true, some, ok, arith, nat_eq, ◌==◌, if◌then◌else◌,
  u32_max, u64_max, length, inl, inr, Result-cases,
}
use gas_leap.Base.StorageMap.{StorageMap, get, Every, insert-Every, sum_by, le-sum_by}
use gas_leap.Types.{PoolInfo, TransactionRecord}
use gas_leap.Gateway.Fee.{get_base_fee, calculate_call_fee, estimate_fee}
use gas_leap.Gateway.Delivery.{is_sendable}
use gas_leap.Frame.{Frame, CurrencyLaws}
use gas_leap.Pallet.{World, Storage}
use gas_leap.Pallet.Change.{
  Change, same, created, funded, configured, authorized, deauthorized, sponsored, new_record,
}
use gas_leap.Pallet.History.{StorageLayer, Reach, Reach-invariant}
use gas_leap.Pallet.Solvency.{backing, pools_backed}
use gas_leap.Pallet.Audit.{cost_in, log_accounts}

-- A record for a chain that the gateway prices: its cost is the chain's base fee and 2 for each byte,
-- of which there are 1 to 1024.
abbrev pub IsPriced : ℕ → TransactionRecord → Type 0
IsPriced n r =
    (base : ℕ) × (get_base_fee r.target_chain ≡ ok base)
    × (base + 2 ≤ r.gas_cost)
    × (r.gas_cost ≤ base + 2048)

abbrev of_pool : ℕ → TransactionRecord → ℕ
of_pool p r = if r.pool_id == p then 1 else 0

-- How many transactions of a pool are logged.
abbrev pub transactions_of : ℕ → StorageMap ℕ TransactionRecord → ℕ
transactions_of p log = sum_by (of_pool p) log

base_fee-bounds : (target base : ℕ) → get_base_fee target ≡ ok base → (800 ≤ base) × (base ≤ 1200)
unfolding get_base_fee
base_fee-bounds target base h = ground arith

sendable-length :
    (call_data : List ℕ)
    → is_sendable call_data ≡ true
    → (1 ≤ length call_data) × (length call_data ≤ 1024)
sendable-length [] h = cc
sendable-length (x ∷ xs) h = (omega arith, ground arith)

fee-bounds :
    (target : ℕ) (call_data : List ℕ) (fee : ℕ)
    → estimate_fee target call_data ≡ ok fee
    → is_sendable call_data ≡ true
    → (base : ℕ) × (get_base_fee target ≡ ok base) × (base + 2 ≤ fee) × (fee ≤ base + 2048)
unfolding estimate_fee calculate_call_fee
fee-bounds target call_data fee priced sendable = elim (Result-cases (get_base_fee target)) [
  | inr (e, unknown) ↦ absurd (ground arith)
  | inl (base, found) ↦
      let (low, high) = base_fee-bounds target base found in
      let (some_bytes, few_bytes) = sendable-length call_data sendable in
      (base, found, ground arith, ground arith)
]

-- Whatever is sponsored costs 802 or more.
pub fee_minimum :
    (target : ℕ) (call_data : List ℕ) (fee : ℕ)
    → estimate_fee target call_data ≡ ok fee
    → is_sendable call_data ≡ true
    → 802 ≤ fee
fee_minimum target call_data fee priced sendable =
    let (base, found, low, high) = fee-bounds target call_data fee priced sendable in
    omega (arith, low, base_fee-bounds target base found)

-- Records that are priced cost 802 to 3248 each.
costs-bounds :
    (p : ℕ) (log : StorageMap ℕ TransactionRecord)
    → Every IsPriced log
    → (802 * transactions_of p log ≤ sum_by (cost_in p) log)
      × (sum_by (cost_in p) log ≤ 3248 * transactions_of p log)
costs-bounds p [] h = (omega arith, omega arith)
costs-bounds p ((n, r) ∷ log) ((base, found, low, high), h) = (
  ground (arith, costs-bounds p log h, base_fee-bounds r.target_chain base found),
  ground (arith, costs-bounds p log h, base_fee-bounds r.target_chain base found),
)

module _ {Ledger Origin : Type 0} (frame : Frame Ledger Origin) where
  HasPricedLog : Storage Ledger → Type 0
  HasPricedLog s = Every IsPriced s.transaction_log

  Change-HasPricedLog :
      (s s' : Storage Ledger) → Change frame s s' → HasPricedLog s → HasPricedLog s'
  unfolding HasPricedLog
  Change-HasPricedLog s s' (same e) h = rw e h
  Change-HasPricedLog s s' (created _ _ _ _ _ _ e) h = rw e h
  Change-HasPricedLog s s' (funded _ _ _ _ _ _ _ e) h = rw e h
  Change-HasPricedLog s s' (configured _ _ _ _ e) h = rw e h
  Change-HasPricedLog s s' (authorized _ _ _ _ e) h = rw e h
  Change-HasPricedLog s s' (deauthorized _ _ _ _ e) h = rw e h
  Change-HasPricedLog s s' (sponsored q who chain bytes cost info g a _ priced sendable k e) h =
      rw e (
        insert-Every IsPriced s.next_transaction_id (new_record frame s q who chain bytes cost)
          s.transaction_log (fee-bounds chain bytes cost priced sendable) h)

  -- In every reachable state every record is for a chain that the gateway prices, and costs the base
  -- fee of this chain and 2 to 2048 more.
  records-IsPriced :
      (layer : StorageLayer Ledger) {w : World Ledger}
      → Reach frame layer w
      → Every IsPriced w.transaction_log
  unfolding HasPricedLog
  records-IsPriced layer =
      Reach-invariant frame layer HasPricedLog (λ l b. tt) Change-HasPricedLog (λ s n h. h)
        (λ s l grows h. h)

  -- In every state in which no id counter has reached its end, and that the chain reaches while other
  -- pallets release and slash only what they have reserved themselves, what a pool has spent is 802 to
  -- 3248 for each of its logged transactions. Its balance, 802 for each of its logged transactions, and
  -- what other pallets have reserved of its owner, are covered by what the currency holds in reserve for
  -- the owner.
  pub spending_bounds :
      (laws : CurrencyLaws frame) (layer : StorageLayer Ledger) {w : World Ledger}
      → Reach frame layer w
      → w.next_pool_id < u32_max
      → w.next_transaction_id < u64_max
      → (p : ℕ) (info : PoolInfo) → get p w.pools ≡ some info
      → (802 * transactions_of p w.transaction_log ≤ info.total_spent)
        × (info.total_spent ≤ 3248 * transactions_of p w.transaction_log)
        × (info.balance
              + 802 * transactions_of p w.transaction_log
              + frame.reserved_by_others w.ledger info.owner
            ≤ frame.reserved_balance w.ledger info.owner)
  spending_bounds laws layer {w} r pools records p info g =
      let books : info.total_spent ≡ sum_by (cost_in p) w.transaction_log =
        ground (arith, log_accounts frame laws layer r pools records p) in
      let (low, high) = costs-bounds p w.transaction_log (records-IsPriced layer r) in
      let backed = pools_backed frame laws layer r info.owner in
      let own = le-sum_by (backing info.owner) p info w.pools g in
      (omega arith, omega arith, ground arith)
