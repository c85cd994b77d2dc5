-- ===== src/Pallet/Interleaving.antt =====
-- Two transactions sponsored one after the other, in either order.
use gas_leap.Base.{
  ℕ, ◌+◌, ◌≡◌, List, Result, ok, arith, nat_eq, ◌==◌, if◌then◌else◌, ◌≤◌, true, saturating_add,
  u64_max,
}
use gas_leap.Base.StorageMap.{get, insert, get-insert}
use gas_leap.Types.{PoolInfo, DispatchError}
use gas_leap.Gateway.Delivery.{is_sendable}
use gas_leap.Frame.{Frame}
use gas_leap.Pallet.{World, sponsor_transaction}
use gas_leap.Pallet.Change.{charge}
use gas_leap.Pallet.Sponsoring.{IsPayable, IsPayable-sponsors, sponsor_effect}

-- A call of `sponsor_transaction`, with its origin.
pub record Sponsoring (Origin : Type 0) : Type 0 where
  pub origin : Origin
  pub pool_id : ℕ
  pub target : ℕ
  pub call_data : List ℕ

module _ {Ledger Origin : Type 0} (frame : Frame Ledger Origin) where
  abbrev pub call :
      Sponsoring Origin → World Ledger → Result DispatchError (Unit {0}) × World Ledger
  call s = sponsor_transaction frame s.origin s.pool_id s.target s.call_data

  -- The call succeeds in this world, on the signer's behalf, at this price.
  pub record IsReady (s : Sponsoring Origin) (w : World Ledger) (who : ℕ) (info : PoolInfo)
      (fee : ℕ) : Type 0 where
    pub payable : IsPayable frame s.origin s.pool_id s.target s.call_data w who info fee
    pub sendable : is_sendable s.call_data ≡ true

  -- What another call on pool `p` at price `fee` leaves of a pool.
  abbrev pub left : (p q : ℕ) → PoolInfo → ℕ → PoolInfo
  left p q info fee = if p == q then charge frame info fee else info

  IsReady-call :
      (s t : Sponsoring Origin) (w : World Ledger) (who who' : ℕ) (info info' : PoolInfo)
      (fee fee' : ℕ)
      → IsReady s w who info fee
      → IsReady t w who' info' fee'
      → ((if s.pool_id == t.pool_id then fee + fee' else fee') ≤ info'.balance)
      → IsReady t (call s w).1 who' (left s.pool_id t.pool_id info' fee) fee'
  IsReady-call s t w who who' info info' fee fee' r r' enough = record {
    payable = record {
      signed = r'.payable.signed;
      found = ground (
        arith,
        r.payable.found,
        r'.payable.found,
        sponsor_effect frame s.origin s.pool_id s.target s.call_data w who info fee r.payable
            r.sendable,
        get-insert s.pool_id t.pool_id (charge frame info fee) w.pools,
      );
      active = ground (arith, r'.payable.active);
      allowed = ground (arith, r'.payable.allowed);
      priced = r'.payable.priced;
      covered = ground arith;
    };
    sendable = r'.sendable;
  }

  pools-call :
      (s : Sponsoring Origin) (w : World Ledger) (who : ℕ) (info : PoolInfo) (fee : ℕ)
      → IsReady s w who info fee
      → ((call s w).0 ≡ ok tt)
        × ((call s w).1.pools ≡ insert s.pool_id (charge frame info fee) w.pools)
        × ((call s w).1.next_transaction_id ≡ saturating_add u64_max w.next_transaction_id 1)
        × ((call s w).1.ledger ≡ w.ledger)
  pools-call s w who info fee r =
      let success =
        IsPayable-sponsors frame s.origin s.pool_id s.target s.call_data w who info fee r.payable
          r.sendable in
      let effect =
        sponsor_effect frame s.origin s.pool_id s.target s.call_data w who info fee r.payable
          r.sendable in
      (success, ground (arith, effect), ground (arith, effect), ground (arith, effect))

  -- Two calls of `sponsor_transaction` that can each be made now, and that a pool they share can
  -- pay together, commute: in either order both succeed, every pool comes out the same, and so do
  -- the transaction counter and the currency.
  pub sponsors_commute :
      (s t : Sponsoring Origin) (w : World Ledger) (who who' : ℕ) (info info' : PoolInfo)
      (fee fee' x : ℕ)
      → IsReady s w who info fee
      → IsReady t w who' info' fee'
      → (if s.pool_id == t.pool_id then fee + fee' else 0) ≤ info.balance
      → let s_t = call t (call s w).1 in
        let t_s = call s (call t w).1 in
        (s_t.0 ≡ ok tt)
        × (t_s.0 ≡ ok tt)
        × (get x s_t.1.pools ≡ get x t_s.1.pools)
        × (s_t.1.next_transaction_id ≡ t_s.1.next_transaction_id)
        × (s_t.1.ledger ≡ t_s.1.ledger)
  sponsors_commute s t w who who' info info' fee fee' x r r' enough =
      let ready =
        IsReady-call s t w who who' info info' fee fee' r r'
          (ground (arith, r.payable.found, r'.payable.found, r'.payable.covered)) in
      let ready' =
        IsReady-call t s w who' who info' info fee' fee r' r
          (ground (arith, r.payable.found, r'.payable.found, r.payable.covered)) in
      let (a, b, c, d) = pools-call s w who info fee r in
      let (a', b', c', d') = pools-call t w who' info' fee' r' in
      let (e, f, g, h) =
        pools-call t (call s w).1 who' (left s.pool_id t.pool_id info' fee) fee' ready in
      let (e', f', g', h') =
        pools-call s (call t w).1 who (left t.pool_id s.pool_id info fee') fee ready' in
      (
        e,
        e',
        ground (
          arith,
          r.payable.found,
          r'.payable.found,
          get-insert t.pool_id x (charge frame (left s.pool_id t.pool_id info' fee) fee')
              (call s w).1.pools,
          get-insert s.pool_id x (charge frame (left t.pool_id s.pool_id info fee') fee)
              (call t w).1.pools,
          get-insert s.pool_id x (charge frame info fee) w.pools,
          get-insert t.pool_id x (charge frame info' fee') w.pools,
        ),
        ground arith,
        ground arith,
      )
