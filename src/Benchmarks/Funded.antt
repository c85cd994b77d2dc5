-- ===== src/Benchmarks/Funded.antt =====
-- How the benchmarks end for a caller with funds.
use gas_leap.Base.{
  ℕ, ◌+◌, ◌≤◌, ◌≡◌, Bool, true, some, ok, err, arith, nat_eq, pair_eq, u128_max, saturating_add,
}
use gas_leap.Base.StorageMap.{get, get-insert_self, get-remove}
use gas_leap.Types.{DispatchError, module_error, chain_not_supported, type_eq}
use gas_leap.Gateway.Fee.{estimate_fee}
use gas_leap.Frame.{Frame}
use gas_leap.Pallet
use gas_leap.Pallet.{World}
use gas_leap.Pallet.Change.{new_pool}
use gas_leap.Pallet.History.{StorageLayer, Call, dispatch}
use gas_leap.Benchmarks
use gas_leap.Benchmarks.{
  Verdict, call_failed, passed, config, new_config, rule, additional_amount, call_data, measure,
  with_pool, with_rule,
}

module _ {Ledger Origin : Type 0} (frame : Frame Ledger Origin) (layer : StorageLayer Ledger)
    (signed : Origin) where
  measure-ok :
      (c : Call) (check : World Ledger → Bool) (w : World Ledger)
      → (dispatch frame signed c w).0 ≡ ok tt
      → check (dispatch frame signed c w).1 ≡ true
      → measure frame layer signed c check w ≡ passed
  measure-ok c check w h k = ground (arith, layer.commits (dispatch frame signed c) w h)

  pub measure-err :
      (c : Call) (check : World Ledger → Bool) (w : World Ledger) (e : DispatchError)
      → (dispatch frame signed c w).0 ≡ err e
      → measure frame layer signed c check w ≡ call_failed e
  measure-err c check w e h = ground (arith, layer.rolls_back (dispatch frame signed c) w e h)

  -- A caller who can reserve the minimum deposit, and then the additional amount.
  pub record IsFunded (w : World Ledger) (caller : ℕ) (l l' : Ledger) : Type 0 where
    pub signer : frame.ensure_signed signed ≡ some caller
    pub first : w.next_pool_id ≡ 0
    pub reserves : frame.reserve caller frame.min_pool_deposit w.ledger ≡ ok l
    pub reserves_more : frame.reserve caller additional_amount l ≡ ok l'
    pub fits : frame.min_pool_deposit + additional_amount ≤ u128_max

  with_pool_lem :
      (w : World Ledger) (caller : ℕ) (l l' : Ledger)
      → IsFunded w caller l l'
      → ((Pallet.create_pool frame signed frame.min_pool_deposit config w).0 ≡ ok tt)
        × ((with_pool frame layer signed w).next_pool_id ≡ 1)
        × (get 0 (with_pool frame layer signed w).pools
            ≡ some (new_pool frame w.storage caller frame.min_pool_deposit config))
        × ((with_pool frame layer signed w).ledger ≡ l)
  unfolding Pallet.create_pool
  with_pool_lem w caller l l' h = (
    ground (arith, h),
    ground (arith, h),
    ground (
      arith,
      h,
      get-insert_self 0 (new_pool frame w.storage caller frame.min_pool_deposit config) w.pools,
    ),
    ground (arith, h),
  )

  fund_passes :
      (w : World Ledger) (caller : ℕ) (l l' : Ledger)
      → IsFunded w caller l l'
      → Benchmarks.fund_pool frame layer signed w ≡ passed
  unfolding Benchmarks.fund_pool Pallet.fund_pool
  fund_passes w caller l l' h =
      let before = with_pool frame layer signed w in
      let pool = new_pool frame w.storage caller frame.min_pool_deposit config in
      let (_, _, found, held) = with_pool_lem w caller l l' h in
      measure-ok (Call.fund_pool 0 additional_amount) (Benchmarks.fund_check frame layer signed)
        before (ground (arith, h))
        (ground (
          arith,
          h,
          get-insert_self 0
              (record pool {
                balance = saturating_add u128_max frame.min_pool_deposit additional_amount;
              })
              before.pools,
        ))

  update_passes :
      (w : World Ledger) (caller : ℕ) (l l' : Ledger)
      → IsFunded w caller l l'
      → Benchmarks.update_pool_config frame layer signed w ≡ passed
  unfolding Benchmarks.update_pool_config Pallet.update_pool_config
  update_passes w caller l l' h =
      let before = with_pool frame layer signed w in
      let pool = new_pool frame w.storage caller frame.min_pool_deposit config in
      let (_, _, found, held) = with_pool_lem w caller l l' h in
      measure-ok (Call.update_pool_config 0 new_config) (Benchmarks.update_check frame layer signed)
        before (ground (arith, h))
        (ground (arith, h, get-insert_self 0 (record pool { config = new_config }) before.pools))

  rule_added :
      (w : World Ledger) (caller : ℕ) (l l' : Ledger)
      → IsFunded w caller l l'
      → let before = with_pool frame layer signed w in
        ((Pallet.add_authorization_rule frame signed 0 rule before).0 ≡ ok tt)
        × (get
              (0, rule.rule_type)
              (Pallet.add_authorization_rule frame signed 0 rule before).1.pool_authorizations
            ≡ some rule)
        × ((Pallet.add_authorization_rule frame signed 0 rule before).1.pools ≡ before.pools)
  unfolding Pallet.add_authorization_rule
  rule_added w caller l l' h =
      let before = with_pool frame layer signed w in
      let (_, _, found, held) = with_pool_lem w caller l l' h in
      (
        ground (arith, h),
        ground (arith, h, get-insert_self (0, rule.rule_type) rule before.pool_authorizations),
        ground (arith, h),
      )

  add_passes :
      (w : World Ledger) (caller : ℕ) (l l' : Ledger)
      → IsFunded w caller l l'
      → Benchmarks.add_authorization_rule frame layer signed w ≡ passed
  unfolding Benchmarks.add_authorization_rule
  add_passes w caller l l' h =
      let (success, found, _) = rule_added w caller l l' h in
      measure-ok (Call.add_authorization_rule 0 rule) (Benchmarks.add_check frame layer signed)
        (with_pool frame layer signed w) success (ground arith)

  remove_passes :
      (w : World Ledger) (caller : ℕ) (l l' : Ledger)
      → IsFunded w caller l l'
      → Benchmarks.remove_authorization_rule frame layer signed w ≡ passed
  unfolding Benchmarks.remove_authorization_rule Pallet.remove_authorization_rule
  remove_passes w caller l l' h =
      let before = with_rule frame layer signed w in
      let (_, _, found, held) = with_pool_lem w caller l l' h in
      let (_, _, kept) = rule_added w caller l l' h in
      measure-ok (Call.remove_authorization_rule 0 rule.rule_type)
        (Benchmarks.remove_check frame layer signed) before (ground (arith, h))
        (ground
          (arith, h, get-remove (0, rule.rule_type) (0, rule.rule_type) before.pool_authorizations))

  sponsor_fails :
      (w : World Ledger) (caller : ℕ) (l l' : Ledger)
      → IsFunded w caller l l'
      → Benchmarks.sponsor_transaction frame layer signed w
        ≡ call_failed (module_error chain_not_supported)
  unfolding Benchmarks.sponsor_transaction Pallet.sponsor_transaction estimate_fee
  sponsor_fails w caller l l' h =
      let before = with_pool frame layer signed w in
      let (_, _, found, held) = with_pool_lem w caller l l' h in
      measure-err (Call.sponsor_transaction 0 1000 call_data)
        (Benchmarks.sponsor_check frame layer signed) before (module_error chain_not_supported)
        (ground (arith, h))

  create_passes :
      (w : World Ledger) (caller : ℕ) (l l' : Ledger)
      → IsFunded w caller l l'
      → Benchmarks.create_pool frame layer signed w ≡ passed
  unfolding Benchmarks.create_pool
  create_passes w caller l l' h =
      let (success, counted, _, _) = with_pool_lem w caller l l' h in
      measure-ok (Call.create_pool frame.min_pool_deposit config)
        (Benchmarks.create_check frame layer signed) w success (ground arith)

  -- Where the next pool id is 0, and for a signed caller who can reserve the minimum deposit and
  -- then the additional amount, a u128 together, five of the benchmarks pass. The sixth fails with
  -- `ChainNotSupported`: it has a transaction sponsored on chain 1000.
  benchmarks_funded :
      (w : World Ledger) (caller : ℕ) (l l' : Ledger)
      → IsFunded w caller l l'
      → (Benchmarks.create_pool frame layer signed w ≡ passed)
        × (Benchmarks.fund_pool frame layer signed w ≡ passed)
        × (Benchmarks.update_pool_config frame layer signed w ≡ passed)
        × (Benchmarks.add_authorization_rule frame layer signed w ≡ passed)
        × (Benchmarks.remove_authorization_rule frame layer signed w ≡ passed)
        × (Benchmarks.sponsor_transaction frame layer signed w
            ≡ call_failed (module_error chain_not_supported))
  benchmarks_funded w caller l l' h = (
    create_passes w caller l l' h,
    fund_passes w caller l l' h,
    update_passes w caller l l' h,
    add_passes w caller l l' h,
    remove_passes w caller l l' h,
    sponsor_fails w caller l l' h,
  )
