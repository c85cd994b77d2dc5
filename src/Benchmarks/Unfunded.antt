-- ===== src/Benchmarks/Unfunded.antt =====
-- How the benchmarks end for a caller without funds.
use gas_leap.Base.{ℕ, ◌<◌, ◌≡◌, none, some, err, arith, nat_eq, pair_eq, Result-cases, inl, inr}
use gas_leap.Base.StorageMap.{get}
use gas_leap.Types.{module_error, pool_not_found, currency_error, type_eq}
use gas_leap.Frame.{Frame, CurrencyLaws}
use gas_leap.Pallet
use gas_leap.Pallet.{World}
use gas_leap.Pallet.History.{StorageLayer, Call}
use gas_leap.Benchmarks
use gas_leap.Benchmarks.Funded.{measure-err}
use gas_leap.Benchmarks.{
  Verdict, call_failed, passed, config, new_config, rule, additional_amount, call_data, measure,
  with_pool, with_rule,
}

module _ {Ledger Origin : Type 0} (frame : Frame Ledger Origin) (laws : CurrencyLaws frame)
    (layer : StorageLayer Ledger) (signed : Origin) (caller : ℕ) (w : World Ledger)
    (signer : frame.ensure_signed signed ≡ some caller)
    (poor : frame.free_balance w.ledger caller < frame.min_pool_deposit)
    (empty : get 0 w.pools ≡ none) where
  cannot_reserve : (e : ℕ) × (frame.reserve caller frame.min_pool_deposit w.ledger ≡ err e)
  cannot_reserve = elim (Result-cases (frame.reserve caller frame.min_pool_deposit w.ledger)) [
    | inl (l, r) ↦
        absurd (omega (arith, laws.reserve_moves caller frame.min_pool_deposit w.ledger l r, poor))
    | inr found ↦ found
  ]

  unfunded_setup :
      (e : ℕ)
      → frame.reserve caller frame.min_pool_deposit w.ledger ≡ err e
      → Pallet.create_pool frame signed frame.min_pool_deposit config w
        ≡ (err (currency_error e), w)
  unfolding Pallet.create_pool
  unfunded_setup e r = ground (arith, signer)

  -- A signed caller with less than the minimum deposit free, where there is no pool 0, cannot
  -- reserve the deposit: the benchmark of `create_pool` fails with the currency's error, and the
  -- other five with `PoolNotFound`, since their set-up drops that error.
  benchmarks_unfunded :
      (e : ℕ) × (Benchmarks.create_pool frame layer signed w ≡ call_failed (currency_error e))
      × (Benchmarks.fund_pool frame layer signed w ≡ call_failed (module_error pool_not_found))
      × (Benchmarks.update_pool_config frame layer signed w
          ≡ call_failed (module_error pool_not_found))
      × (Benchmarks.add_authorization_rule frame layer signed w
          ≡ call_failed (module_error pool_not_found))
      × (Benchmarks.remove_authorization_rule frame layer signed w
          ≡ call_failed (module_error pool_not_found))
      × (Benchmarks.sponsor_transaction frame layer signed w
          ≡ call_failed (module_error pool_not_found))
  unfolding Benchmarks.create_pool Benchmarks.fund_pool Benchmarks.update_pool_config
      Benchmarks.add_authorization_rule Benchmarks.remove_authorization_rule
      Benchmarks.sponsor_transaction Pallet.fund_pool Pallet.update_pool_config
      Pallet.add_authorization_rule Pallet.remove_authorization_rule Pallet.sponsor_transaction
  benchmarks_unfunded =
      let (e, r) = cannot_reserve in
      let same = unfunded_setup e r in
      let lost = module_error pool_not_found in
      (
        e,
        measure-err frame layer signed (Call.create_pool frame.min_pool_deposit config)
            (Benchmarks.create_check frame layer signed) w (currency_error e) (ground arith),
        measure-err frame layer signed (Call.fund_pool 0 additional_amount)
            (Benchmarks.fund_check frame layer signed) (with_pool frame layer signed w) lost
            (ground (arith, signer, empty)),
        measure-err frame layer signed (Call.update_pool_config 0 new_config)
            (Benchmarks.update_check frame layer signed) (with_pool frame layer signed w) lost
            (ground (arith, signer, empty)),
        measure-err frame layer signed (Call.add_authorization_rule 0 rule)
            (Benchmarks.add_check frame layer signed) (with_pool frame layer signed w) lost
            (ground (arith, signer, empty)),
        measure-err frame layer signed (Call.remove_authorization_rule 0 rule.rule_type)
            (Benchmarks.remove_check frame layer signed) (with_rule frame layer signed w) lost
            (ground (arith, signer, empty)),
        measure-err frame layer signed (Call.sponsor_transaction 0 1000 call_data)
            (Benchmarks.sponsor_check frame layer signed) (with_pool frame layer signed w) lost
            (ground (arith, signer, empty)),
      )
