-- ===== src/Pallet/Series.antt =====
-- A pool that sponsors the same transaction over and over.
use gas_leap.Base.{
  ℕ, zero, suc, ◌+◌, ◌*◌, ◌-◌, ◌≤◌, ◌<◌, ◌≡◌, List, true, some, ok, err, arith, nat_eq, contains,
  u64_max, u128_max,
}
use gas_leap.Base.StorageMap.{get, get-insert_self}
use gas_leap.Types.{PoolStatus, PoolInfo, module_error, insufficient_funds}
use gas_leap.Gateway.Fee.{estimate_fee}
use gas_leap.Gateway.Delivery.{is_sendable}
use gas_leap.Frame.{Frame}
use gas_leap.Pallet
use gas_leap.Pallet.{World}
use gas_leap.Pallet.Change.{charge}
use gas_leap.Pallet.History.{StorageLayer, Call, apply}
use gas_leap.Pallet.Sponsoring.{IsPayable, IsPayable-sponsors, sponsor_effect}

module _ {Ledger Origin : Type 0} (frame : Frame Ledger Origin) (layer : StorageLayer Ledger)
    (origin : Origin) (pool_id target : ℕ) (call_data : List ℕ) where
  abbrev pub sponsoring : Call
  sponsoring = Call.sponsor_transaction pool_id target call_data

  -- The world after `n` of these calls.
  unfoldable pub after : ℕ → World Ledger → World Ledger
  after zero w = w
  after (suc n) w = after n (apply frame layer origin sponsoring w).1

  -- A pool with some fees left, of a signed user, on an allowed and priced chain.
  pub record IsServing (w : World Ledger) (who : ℕ) (info : PoolInfo) (fee : ℕ) : Type 0 where
    pub signed : frame.ensure_signed origin ≡ some who
    pub found : get pool_id w.pools ≡ some info
    pub active : info.status ≡ PoolStatus.active
    pub allowed : contains info.config.allowed_chains target ≡ true
    pub priced : estimate_fee target call_data ≡ ok fee
    pub sendable : is_sendable call_data ≡ true
    pub fits : info.balance + info.total_spent ≤ u128_max

  IsServing-IsPayable :
      (w : World Ledger) (who : ℕ) (info : PoolInfo) (fee : ℕ)
      → IsServing w who info fee
      → fee ≤ info.balance
      → IsPayable frame origin pool_id target call_data w who info fee
  IsServing-IsPayable w who info fee h enough = record {
    signed = h.signed;
    found = h.found;
    active = h.active;
    allowed = h.allowed;
    priced = h.priced;
    covered = enough;
  }

  apply-effect :
      (w : World Ledger) (who : ℕ) (info : PoolInfo) (fee : ℕ)
      → IsServing w who info fee
      → fee ≤ info.balance
      → w.next_transaction_id < u64_max
      → IsServing (apply frame layer origin sponsoring w).1 who (charge frame info fee) fee
        × ((apply frame layer origin sponsoring w).1.next_transaction_id
            ≡ w.next_transaction_id + 1)
  apply-effect w who info fee h enough lt =
      let payable = IsServing-IsPayable w who info fee h enough in
      let success =
        IsPayable-sponsors frame origin pool_id target call_data w who info fee payable
          h.sendable in
      let effect =
        sponsor_effect frame origin pool_id target call_data w who info fee payable h.sendable in
      let committed =
        layer.commits (Pallet.sponsor_transaction frame origin pool_id target call_data) w
          success in
      (
        record {
          signed = h.signed;
          found =
              ground
                (arith, committed, effect, get-insert_self pool_id (charge frame info fee) w.pools);
          active = h.active;
          allowed = h.allowed;
          priced = h.priced;
          sendable = h.sendable;
          fits = omega (arith, h.fits);
        },
        ground (arith, committed, effect),
      )

  -- What the pool is after paying `n` fees.
  abbrev pub paid : ℕ → PoolInfo → ℕ → PoolInfo
  paid n info fee = record info {
    balance = info.balance - fee * n;
    total_spent = info.total_spent + fee * n;
  }

  after-IsServing :
      (n : ℕ) (w : World Ledger) (who : ℕ) (info : PoolInfo) (fee : ℕ)
      → IsServing w who info fee
      → fee * n ≤ info.balance
      → w.next_transaction_id + n ≤ u64_max
      → IsServing (after n w) who (paid n info fee) fee
        × ((after n w).next_transaction_id ≡ w.next_transaction_id + n)
  unfolding after
  after-IsServing zero w who info fee h enough ids = (ground (arith, h), omega arith)
  after-IsServing (suc n) w who info fee h enough ids =
      let (served, counted) = apply-effect w who info fee h (omega arith) (omega arith) in
      let (rest, ids') =
        after-IsServing n (apply frame layer origin sponsoring w).1 who (charge frame info fee) fee
          served (omega arith) (omega (arith, counted)) in
      let same : paid n (charge frame info fee) fee ≡ paid (suc n) info fee =
        ground (arith, h.fits) in
      (rw same at rest, omega (arith, ids', counted))

  broke-refused :
      (w : World Ledger) (who : ℕ) (info : PoolInfo) (fee : ℕ)
      → IsServing w who info fee
      → info.balance < fee
      → (Pallet.sponsor_transaction frame origin pool_id target call_data w).0
        ≡ err (module_error insufficient_funds)
  unfolding Pallet.sponsor_transaction
  broke-refused w who info fee h short = ground (arith, h)

  -- A pool whose balance holds `n` fees and no more serves exactly `n` calls in a row: the pool has
  -- paid `n` fees, `n` transaction ids are used, and the next call fails with `InsufficientFunds`. The caller is signed, the chain allowed and priced, the call data fits a
  -- message, the pool's account is a u128, and the transaction ids suffice.
  pub pool_serves :
      (w : World Ledger) (who : ℕ) (info : PoolInfo) (fee n : ℕ)
      → IsServing w who info fee
      → fee * n ≤ info.balance
      → info.balance < fee * n + fee
      → w.next_transaction_id + n ≤ u64_max
      → (get pool_id (after n w).pools ≡ some (paid n info fee))
        × ((after n w).next_transaction_id ≡ w.next_transaction_id + n)
        × ((apply frame layer origin sponsoring (after n w)).0
            ≡ err (module_error insufficient_funds))
  pool_serves w who info fee n h enough short ids =
      let (served, counted) = after-IsServing n w who info fee h enough ids in
      let refused = broke-refused (after n w) who (paid n info fee) fee served (omega arith) in
      (
        served.found,
        counted,
        ground (
          arith,
          layer.rolls_back (Pallet.sponsor_transaction frame origin pool_id target call_data)
              (after n w) (module_error insufficient_funds) refused,
        ),
      )
