-- ===== src/Pallet/Refinement.antt =====
-- Each dispatchable of pallets/sponsorship/src/lib.rs implements its transition of Change.
use gas_leap.Base.{ℕ, ◌≡◌, ok, ap, arith, Option-cases, Result-cases, inl, inr, List, nat_eq}
use gas_leap.Base.StorageMap.{get}
use gas_leap.Types.{PoolConfig, AuthorizationRule, AuthorizationType}
use gas_leap.Gateway.{TransactionReceipt}
use gas_leap.Frame.{Frame}
use gas_leap.Pallet.{
  World, create_pool, fund_pool, update_pool_config, add_authorization_rule,
  remove_authorization_rule, sponsor_transaction, process_receipt,
}
use gas_leap.Pallet.Sponsoring.{sponsor_transaction-IsPayable, sponsor_effect}
use gas_leap.Pallet.Change.{
  Change, same, created, funded, configured, authorized, deauthorized, sponsored,
}

module _ {Ledger Origin : Type 0} (frame : Frame Ledger Origin) (origin : Origin)
    (w : World Ledger) where
  pub create_pool-Change :
      (deposit : ℕ) (config : PoolConfig)
      → (create_pool frame origin deposit config w).0 ≡ ok tt
      → Change frame w.storage (create_pool frame origin deposit config w).1.storage
  unfolding create_pool
  create_pool-Change deposit config h = elim (Option-cases (frame.ensure_signed origin)) [
    | inl e ↦ absurd (ground arith)
    | inr (who, e) ↦ elim (Result-cases (frame.reserve who deposit w.ledger)) [
      | inl (l, r) ↦ created who deposit config l r (ground arith) (ground arith)
      | inr (d, r) ↦ absurd (ground arith)
    ]
  ]

  pub fund_pool-Change :
      (pool_id amount : ℕ)
      → (fund_pool frame origin pool_id amount w).0 ≡ ok tt
      → Change frame w.storage (fund_pool frame origin pool_id amount w).1.storage
  unfolding fund_pool
  fund_pool-Change pool_id amount h = elim (Option-cases (get pool_id w.pools)) [
    | inl e ↦ absurd (ground arith)
    | inr (info, e) ↦ elim (Result-cases (frame.reserve info.owner amount w.ledger)) [
      | inl (l, r) ↦ funded pool_id amount info l e (ground arith) r (ground arith)
      | inr (d, r) ↦ absurd (ground arith)
    ]
  ]

  pub update_pool_config-Change :
      (pool_id : ℕ) (config : PoolConfig)
      → (update_pool_config frame origin pool_id config w).0 ≡ ok tt
      → Change frame w.storage (update_pool_config frame origin pool_id config w).1.storage
  unfolding update_pool_config
  update_pool_config-Change pool_id config h = elim (Option-cases (get pool_id w.pools)) [
    | inl e ↦ absurd (ground arith)
    | inr (info, e) ↦ configured pool_id info config e (ground arith)
  ]

  pub add_authorization_rule-Change :
      (pool_id : ℕ) (rule : AuthorizationRule)
      → (add_authorization_rule frame origin pool_id rule w).0 ≡ ok tt
      → Change frame w.storage (add_authorization_rule frame origin pool_id rule w).1.storage
  unfolding add_authorization_rule
  add_authorization_rule-Change pool_id rule h = elim (Option-cases (get pool_id w.pools)) [
    | inl e ↦ absurd (ground arith)
    | inr (info, e) ↦ authorized pool_id info rule e (ground arith)
  ]

  pub remove_authorization_rule-Change :
      (pool_id : ℕ) (rule_type : AuthorizationType)
      → (remove_authorization_rule frame origin pool_id rule_type w).0 ≡ ok tt
      → Change frame w.storage
          (remove_authorization_rule frame origin pool_id rule_type w).1.storage
  unfolding remove_authorization_rule
  remove_authorization_rule-Change pool_id rule_type h = elim (Option-cases (get pool_id w.pools)) [
    | inl e ↦ absurd (ground arith)
    | inr (info, e) ↦ deauthorized pool_id info rule_type e (ground arith)
  ]

  pub sponsor_transaction-Change :
      (pool_id target_chain : ℕ) (call_data : List ℕ)
      → (sponsor_transaction frame origin pool_id target_chain call_data w).0 ≡ ok tt
      → Change frame w.storage
          (sponsor_transaction frame origin pool_id target_chain call_data w).1.storage
  sponsor_transaction-Change pool_id target_chain call_data h =
      let (who, info, cost, pay, sendable) =
        sponsor_transaction-IsPayable frame origin pool_id target_chain call_data w h in
      let effect =
        sponsor_effect frame origin pool_id target_chain call_data w who info cost pay sendable in
      sponsored pool_id who target_chain call_data cost info pay.found pay.active pay.allowed
        pay.priced sendable pay.covered (ap (λ v. v.storage) effect)

  pub process_receipt-Change :
      (receipt : TransactionReceipt)
      → (process_receipt frame origin receipt w).0 ≡ ok tt
      → Change frame w.storage (process_receipt frame origin receipt w).1.storage
  unfolding process_receipt
  process_receipt-Change receipt h = same (ground arith)
