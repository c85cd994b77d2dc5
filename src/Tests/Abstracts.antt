-- ===== src/Tests/Abstracts.antt =====
-- The pallet in the abstract at concrete inputs.
use gas_leap.Base.{
  ℕ, ◌≡◌, ◌≢◌, arith, refl, List, [], ◌∷◌, Option, none, some, ok, err, nat_eq, pair_eq,
}
use gas_leap.Types.{AuthorizationRule, AuthorizationType, module_error, not_pool_owner, bad_origin}
use gas_leap.Gateway.Fee.{estimate_fee}
use gas_leap.Pallet.History.{Call}
use gas_leap.Pallet.Abstract.{view}
use gas_leap.Pallet.Abstract.Simulation.{Input, call, new_block, currency, run, play, abstract_run}
use gas_leap.Pallet.Abstract.Editing.{on, authorize}
use gas_leap.Pallet.Abstract.Following.{touches}
use gas_leap.Pallet.Abstract.Commuting.{Commute}
use gas_leap.Pallet.Abstract.Postponing.{all, made, shown, manage_commutes}
use gas_leap.Tests.Setting.{Accounts, frame, layer}
use gas_leap.Tests.Scenario.{
  bytes, with_pool, creates_id, fresh, creation, sponsoring, astar_config, charged_pool,
  new_test_ext,
}

-- A pool is made, a block later a transaction is sponsored, and two origins may not configure it.
abbrev inputs : List (Input Accounts (Option ℕ))
inputs =
    call (some 1) creation
    ∷ new_block 2
    ∷ call (some 2) sponsoring
    ∷ call (some 2) (Call.update_pool_config 0 astar_config)
    ∷ call none (Call.update_pool_config 0 astar_config)
    ∷ currency new_test_ext
    ∷ []

abstract_run_example :
    play frame inputs (view fresh.storage)
    ≡ ((run frame layer inputs fresh).0, view (run frame layer inputs fresh).1.storage)
abstract_run_example = abstract_run frame layer inputs fresh

inputs_results :
    (play frame inputs (view fresh.storage)).0
    ≡ ok tt ∷ ok tt ∷ err (module_error not_pool_owner) ∷ err bad_origin ∷ []
unfolding estimate_fee
inputs_results = refl

inputs_pool : (play frame inputs (view fresh.storage)).1.pools 0 ≡ some charged_pool
unfolding estimate_fee
inputs_pool = refl

abbrev astar_rule : AuthorizationRule
astar_rule = record { rule_type = AuthorizationType.spending_limit; contents = []; created_at = 1 }

new_pool_elsewhere : touches creation with_pool.next_pool_id ≢ some 0
new_pool_elsewhere h = ground (arith, creates_id)

abbrev others : List (Option ℕ × Call)
others = (some 2, creation) ∷ (some 3, Call.sponsor_transaction 1 2006 bytes) ∷ []

-- Account 1 gives its pool a rule; account 2 makes a pool, which account 3 uses.
manage_commutes_example :
    Commute
      (shown frame layer)
      (made frame layer (some 1, on 0 (authorize astar_rule)))
      (all (made frame layer) others)
      with_pool
manage_commutes_example =
    manage_commutes frame layer (some 1) 0 (authorize astar_rule) others with_pool
      (new_pool_elsewhere, (λ h. ground arith, tt))
