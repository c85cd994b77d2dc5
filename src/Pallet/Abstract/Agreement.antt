-- ===== src/Pallet/Abstract/Agreement.antt =====
-- The dispatchables of pallets/sponsorship/src/lib.rs but for `sponsor_transaction`, against their
-- abstract calls.
use mathlib.Core.Path.{fun_ext}
use gas_leap.Base.{
  ◌==◌, ℕ, ◌≡◌, arith, Option-cases, Result-cases, inl, inr, nat_eq, pair_eq, Result, ok, err, Eq,
  saturating_add, u128_max, Bool-cases,
}
use gas_leap.Base.StorageMap.{StorageMap, get, insert, remove, get-insert, get-remove}
use gas_leap.Types.{
  is_active, PoolConfig, AuthorizationRule, AuthorizationType, type_eq, DispatchError,
}
use gas_leap.Gateway.{TransactionReceipt}
use gas_leap.Frame.{Frame}
use gas_leap.Pallet.{
  World, create_pool, fund_pool, update_pool_config, add_authorization_rule,
  remove_authorization_rule, process_receipt,
}
use gas_leap.Gateway.Settling.{process_receipt_lem}
use gas_leap.Pallet.Change.{new_pool}
use gas_leap.Pallet.History.{Call}
use gas_leap.Pallet.Abstract.{View, look, view, put, drop, verdict}

module _ {K V : Type 0} ⦃e : Eq K⦄ where
  pub look-insert : (k : K) (v : V) (m : StorageMap K V) → look (insert k v m) ≡ put k v (look m)
  look-insert k v m = fun_ext (λ j. get-insert k j v m)

  pub look-remove : (k : K) (m : StorageMap K V) → look (remove k m) ≡ drop k (look m)
  look-remove k m = fun_ext (λ j. get-remove k j m)

-- A body does what the verdict says: the storage it leaves looks like what the verdict writes, or
-- it fails with the same error.
abbrev pub Agrees :
    {Ledger : Type 0}
    → Result DispatchError (Unit {0}) × World Ledger
    → Result DispatchError (View Ledger)
    → Type 0
Agrees (r, w) (ok v) = (r ≡ ok tt) × (view w.storage ≡ v)
Agrees (r, w) (err e) = r ≡ err e

module _ {Ledger Origin : Type 0} (frame : Frame Ledger Origin) (o : Origin)
    (w : World Ledger) where
  pub update_pool_config-Agrees :
      (p : ℕ) (config : PoolConfig)
      → Agrees
          (update_pool_config frame o p config w)
          (verdict frame o (Call.update_pool_config p config) (view w.storage))
  unfolding update_pool_config
  update_pool_config-Agrees p config = elim (Option-cases (frame.ensure_signed o)) [
    | inl s ↦ ground arith
    | inr (who, s) ↦ elim (Option-cases (get p w.pools)) [
      | inl g ↦ ground arith
      | inr (info, g) ↦ ground (arith, look-insert p (record info { config = config }) w.pools)
    ]
  ]

  pub create_pool-Agrees :
      (deposit : ℕ) (config : PoolConfig)
      → Agrees
          (create_pool frame o deposit config w)
          (verdict frame o (Call.create_pool deposit config) (view w.storage))
  unfolding create_pool
  create_pool-Agrees deposit config = elim (Option-cases (frame.ensure_signed o)) [
    | inl s ↦ ground arith
    | inr (who, s) ↦ elim (Result-cases (frame.reserve who deposit w.ledger)) [
      | inr (d, r) ↦ ground arith
      | inl (l, r) ↦ ground (
        arith,
        look-insert w.next_pool_id (new_pool frame w.storage who deposit config) w.pools,
        look-insert (who, w.next_pool_id) tt w.pool_owners,
      )
    ]
  ]

  pub fund_pool-Agrees :
      (p amount : ℕ)
      → Agrees
          (fund_pool frame o p amount w)
          (verdict frame o (Call.fund_pool p amount) (view w.storage))
  unfolding fund_pool
  fund_pool-Agrees p amount = elim (Option-cases (frame.ensure_signed o)) [
    | inl s ↦ ground arith
    | inr (who, s) ↦ elim (Option-cases (get p w.pools)) [
      | inl g ↦ ground arith
      | inr (info, g) ↦ elim (Result-cases (frame.reserve info.owner amount w.ledger)) [
        | inr (d, r) ↦ ground arith
        | inl (l, r) ↦ elim (Bool-cases (info.owner == who)) [
          | inr n ↦ ground arith
          | inl y ↦ elim (Bool-cases (is_active info.status)) [
            | inr b ↦ ground arith
            | inl a ↦ ground (
              arith,
              look-insert p (record info { balance = saturating_add u128_max info.balance amount })
                  w.pools,
            )
          ]
        ]
      ]
    ]
  ]

  pub add_authorization_rule-Agrees :
      (p : ℕ) (rule : AuthorizationRule)
      → Agrees
          (add_authorization_rule frame o p rule w)
          (verdict frame o (Call.add_authorization_rule p rule) (view w.storage))
  unfolding add_authorization_rule
  add_authorization_rule-Agrees p rule = elim (Option-cases (frame.ensure_signed o)) [
    | inl s ↦ ground arith
    | inr (who, s) ↦ elim (Option-cases (get p w.pools)) [
      | inl g ↦ ground arith
      | inr (info, g) ↦ ground (arith, look-insert (p, rule.rule_type) rule w.pool_authorizations)
    ]
  ]

  pub remove_authorization_rule-Agrees :
      (p : ℕ) (t : AuthorizationType)
      → Agrees
          (remove_authorization_rule frame o p t w)
          (verdict frame o (Call.remove_authorization_rule p t) (view w.storage))
  unfolding remove_authorization_rule
  remove_authorization_rule-Agrees p t = elim (Option-cases (frame.ensure_signed o)) [
    | inl s ↦ ground arith
    | inr (who, s) ↦ elim (Option-cases (get p w.pools)) [
      | inl g ↦ ground arith
      | inr (info, g) ↦ ground (arith, look-remove (p, t) w.pool_authorizations)
    ]
  ]

  pub process_receipt-Agrees :
      (r : TransactionReceipt)
      → Agrees
          (process_receipt frame o r w)
          (verdict frame o (Call.process_receipt r) (view w.storage))
  unfolding process_receipt
  process_receipt-Agrees r = elim (Option-cases (frame.ensure_signed o)) [
    | inl s ↦ ground arith
    | inr (who, s) ↦ ground (arith, process_receipt_lem r w.lines)
  ]
