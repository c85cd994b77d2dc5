-- ===== src/Pallet/Exhaustion.antt =====
-- Calls that bring a pool no money: how many transactions the pool pays for before it runs out.
use gas_leap.Base.{
  ℕ, ◌+◌, ◌*◌, ◌≤◌, ◌≡◌, List, [], ◌∷◌, Bool, true, false, ◌&&◌, none, some, ok, err, is_ok, arith,
  nat_eq, ◌==◌, if◌then◌else◌, inl, inr, Result-cases, Option-cases, Bool-cases,
}
use gas_leap.Base.StorageMap.{StorageMap, get, get-insert}
use gas_leap.Types.{PoolInfo, PoolConfig, DispatchError}
use gas_leap.Frame.{Frame}
use gas_leap.Pallet
use gas_leap.Pallet.{World}
use gas_leap.Pallet.Change.{charge}
use gas_leap.Pallet.History.{StorageLayer, Call, dispatch, apply}
use gas_leap.Pallet.Sponsoring.{sponsor_transaction-IsPayable, sponsor_effect}
use gas_leap.Pallet.Budget.{fee_minimum}

-- The balance of the pool under an id; 0 where there is none.
abbrev pub balance_of : ℕ → StorageMap ℕ PoolInfo → ℕ
balance_of p pools = elim (get p pools) [ none ↦ 0 | some info ↦ info.balance ]

-- The calls that may add to a pool's balance.
abbrev pub deposits : Call → Bool
deposits (Call.create_pool _ _) = true
deposits (Call.fund_pool _ _) = true
deposits _ = false

abbrev pub sponsors_from : ℕ → Call → Bool
sponsors_from p (Call.sponsor_transaction q _ _) = q == p
sponsors_from p _ = false

module _ {Ledger Origin : Type 0} (frame : Frame Ledger Origin) (layer : StorageLayer Ledger) where
  -- 1 for a call that sponsors a transaction from the pool and succeeds.
  abbrev pub paid : ℕ → Origin → Call → World Ledger → ℕ
  paid p o c w = if sponsors_from p c && is_ok (apply frame layer o c w).0 then 1 else 0

  -- The calls one after the other, each through the storage layer.
  abbrev pub run : List (Origin × Call) → World Ledger → World Ledger
  run [] w = w
  run ((o, c) ∷ calls) w = run calls (apply frame layer o c w).1

  abbrev pub payments : ℕ → List (Origin × Call) → World Ledger → ℕ
  payments p [] w = 0
  payments p ((o, c) ∷ calls) w = paid p o c w + payments p calls (apply frame layer o c w).1

  abbrev pub no_deposits : List (Origin × Call) → Bool
  no_deposits [] = true
  no_deposits ((o, c) ∷ calls) = if deposits c then false else no_deposits calls

  -- A body that fails is taken back, and pays for nothing.
  failed_call :
      (p : ℕ) (o : Origin) (c : Call) (w : World Ledger) (e : DispatchError)
      → (dispatch frame o c w).0 ≡ err e
      → balance_of p (apply frame layer o c w).1.pools + 802 * paid p o c w ≤ balance_of p w.pools
  failed_call p o c w e h = rw (layer.rolls_back (dispatch frame o c) w e h) (ground arith)

  sponsored_call :
      (p : ℕ) (o : Origin) (q target : ℕ) (call_data : List ℕ) (w : World Ledger)
      → (Pallet.sponsor_transaction frame o q target call_data w).0 ≡ ok tt
      → balance_of p (Pallet.sponsor_transaction frame o q target call_data w).1.pools
          + 802 * (if q == p then 1 else 0)
        ≤ balance_of p w.pools
  sponsored_call p o q target call_data w h =
      let (who, info, fee, pay, sendable) =
        sponsor_transaction-IsPayable frame o q target call_data w h in
      let effect = sponsor_effect frame o q target call_data w who info fee pay sendable in
      rw effect (
        ground (
          arith,
          pay.found,
          pay.covered,
          fee_minimum target call_data fee pay.priced sendable,
          get-insert q p (charge frame info fee) w.pools,
        ))

  updated_call :
      (p : ℕ) (o : Origin) (q : ℕ) (config : PoolConfig) (w : World Ledger)
      → (Pallet.update_pool_config frame o q config w).0 ≡ ok tt
      → balance_of p (Pallet.update_pool_config frame o q config w).1.pools ≤ balance_of p w.pools
  unfolding Pallet.update_pool_config
  updated_call p o q config w h = elim (Option-cases (get q w.pools)) [
    | inl e ↦ absurd (ground arith)
    | inr (info, e) ↦ ground (arith, get-insert q p (record info { config = config }) w.pools)
  ]

  dispatched_call :
      (p : ℕ) (o : Origin) (c : Call) (w : World Ledger)
      → deposits c ≡ false
      → (dispatch frame o c w).0 ≡ ok tt
      → balance_of p (dispatch frame o c w).1.pools + 802 * (if sponsors_from p c then 1 else 0)
        ≤ balance_of p w.pools
  unfolding Pallet.add_authorization_rule Pallet.remove_authorization_rule Pallet.process_receipt
  dispatched_call p o (Call.create_pool _ _) w d h = cc
  dispatched_call p o (Call.fund_pool _ _) w d h = cc
  dispatched_call p o (Call.update_pool_config q config) w d h =
      omega (arith, updated_call p o q config w h)
  dispatched_call p o (Call.add_authorization_rule q rule) w d h = ground arith
  dispatched_call p o (Call.remove_authorization_rule q t) w d h = ground arith
  dispatched_call p o (Call.sponsor_transaction q target call_data) w d h =
      sponsored_call p o q target call_data w h
  dispatched_call p o (Call.process_receipt r) w d h = ground arith

  call-balance :
      (p : ℕ) (o : Origin) (c : Call) (w : World Ledger)
      → deposits c ≡ false
      → balance_of p (apply frame layer o c w).1.pools + 802 * paid p o c w ≤ balance_of p w.pools
  call-balance p o c w d = elim (Result-cases (dispatch frame o c w).0) [
    | inr (e, h) ↦ failed_call p o c w e h
    | inl (_, h) ↦
        rw (layer.commits (dispatch frame o c) w h) (ground (arith, dispatched_call p o c w d h))
  ]

  -- However many calls of whatever origins are made, none of which creates or funds a pool: what is
  -- left of a pool's balance, and 802 for every transaction that the pool pays for on the way, are no
  -- more than the balance at the beginning.
  pub payments_end :
      (p : ℕ) (calls : List (Origin × Call)) (w : World Ledger)
      → no_deposits calls ≡ true
      → balance_of p (run calls w).pools + 802 * payments p calls w ≤ balance_of p w.pools
  payments_end p [] w h = omega arith
  payments_end p ((o, c) ∷ calls) w h = elim (Bool-cases (deposits c)) [
    | inl d ↦ absurd (ground arith)
    | inr d ↦ omega (
      arith,
      call-balance p o c w d,
      payments_end p calls (apply frame layer o c w).1 (ground arith),
    )
  ]
