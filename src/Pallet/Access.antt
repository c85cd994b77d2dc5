-- ===== src/Pallet/Access.antt =====
-- Who may manage a pool: the four dispatchables that check the owner.
use gas_leap.Base.{ℕ, ◌≡◌, ◌≢◌, Option, none, some, ok, err, arith, ◌==◌, nat_eq, if◌then◌else◌}
use gas_leap.Base.StorageMap.{get}
use gas_leap.Types.{DispatchError, module_error, not_pool_owner, pool_not_found, bad_origin}
use gas_leap.Frame.{Frame}
use gas_leap.Pallet
use gas_leap.Pallet.{World}
use gas_leap.Pallet.History.{Call, dispatch}

-- The pool that a call of an owner manages.
abbrev pub managed_pool : Call → Option ℕ
managed_pool (Call.create_pool _ _) = none
managed_pool (Call.fund_pool p _) = some p
managed_pool (Call.update_pool_config p _) = some p
managed_pool (Call.add_authorization_rule p _) = some p
managed_pool (Call.remove_authorization_rule p _) = some p
managed_pool (Call.sponsor_transaction _ _ _) = none
managed_pool (Call.process_receipt _) = none

module _ {Ledger Origin : Type 0} (frame : Frame Ledger Origin) (o : Origin)
    (w : World Ledger) where
  -- Why the origin may not manage a pool; nothing if it may.
  abbrev pub refusal : ℕ → Option DispatchError
  refusal p = elim (frame.ensure_signed o) [
    | none ↦ some bad_origin
    | some who ↦ elim (get p w.pools) [
      | none ↦ some (module_error pool_not_found)
      | some info ↦ if info.owner == who then none else some (module_error not_pool_owner)
    ]
  ]

  -- An origin that may not manage the pool gets the error that says why from each managing call:
  -- `BadOrigin` without a signer, else `PoolNotFound`, else `NotPoolOwner`. Nothing changes.
  pub manage_refused :
      (c : Call) (p : ℕ) (e : DispatchError)
      → managed_pool c ≡ some p
      → refusal p ≡ some e
      → dispatch frame o c w ≡ (err e, w)
  unfolding Pallet.fund_pool Pallet.update_pool_config Pallet.add_authorization_rule
      Pallet.remove_authorization_rule
  manage_refused (Call.create_pool _ _) p e h r = cc
  manage_refused (Call.fund_pool q n) p e h r = ground arith
  manage_refused (Call.update_pool_config q c) p e h r = ground arith
  manage_refused (Call.add_authorization_rule q rule) p e h r = ground arith
  manage_refused (Call.remove_authorization_rule q t) p e h r = ground arith
  manage_refused (Call.sponsor_transaction _ _ _) p e h r = cc
  manage_refused (Call.process_receipt _) p e h r = cc

  -- An origin that may manage the pool changes its configuration and its rules without fail.
  manage_succeeds :
      (c : Call) (p : ℕ)
      → managed_pool c ≡ some p
      → refusal p ≡ none
      → ((n : ℕ) → c ≢ Call.fund_pool p n)
      → (dispatch frame o c w).0 ≡ ok tt
  unfolding Pallet.update_pool_config Pallet.add_authorization_rule Pallet.remove_authorization_rule
  manage_succeeds (Call.create_pool _ _) p h r f = cc
  manage_succeeds (Call.fund_pool q n) p h r f = absurd (f n (ground arith))
  manage_succeeds (Call.update_pool_config q c) p h r f = ground arith
  manage_succeeds (Call.add_authorization_rule q rule) p h r f = ground arith
  manage_succeeds (Call.remove_authorization_rule q t) p h r f = ground arith
  manage_succeeds (Call.sponsor_transaction _ _ _) p h r f = cc
  manage_succeeds (Call.process_receipt _) p h r f = cc
