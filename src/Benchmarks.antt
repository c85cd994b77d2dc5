-- ===== src/Benchmarks.antt =====
-- pallets/sponsorship/src/benchmarking.rs: the six benchmarks, each a set-up, a measured call and
-- a check. The set-up calls the functions of the pallet themselves and drops their results; the
-- measured call goes through the dispatcher, and an error of it ends the benchmark.
pub mod Funded
pub mod Unfunded
use gas_leap.Base.{
  ℕ, ◌+◌, List, [], ◌∷◌, Bool, true, false, Option, none, some, Result, ok, err, ◌==◌, nat_eq,
  pair_eq, ◌&&◌, not, is_some, if◌then◌else◌,
}
use gas_leap.Base.StorageMap.{get}
use gas_leap.Types.{
  PoolConfig, PoolInfo, AuthorizationRule, AuthorizationType, DispatchError, type_eq,
}
use gas_leap.Frame.{Frame}
use gas_leap.Pallet
use gas_leap.Pallet.{World}
use gas_leap.Pallet.History.{StorageLayer, Call, apply}

-- How a benchmark ends: its call failed, its check panicked, or all is well.
pub data Verdict : Type 0 where
  call_failed : DispatchError → Verdict
  check_panicked passed : Verdict

abbrev pub config : PoolConfig
config = record {
  max_transaction_value = 1000;
  daily_spending_limit = 5000;
  allowed_chains = 1000 ∷ [];
  authorization_required = false;
}

abbrev pub new_config : PoolConfig
new_config = record {
  max_transaction_value = 2000;
  daily_spending_limit = 10000;
  allowed_chains = 1000 ∷ 2000 ∷ [];
  authorization_required = true;
}

abbrev pub rule : AuthorizationRule
rule = record {
  rule_type = AuthorizationType.user_whitelist;
  contents = 1 ∷ 2 ∷ 3 ∷ [];
  created_at = 1;
}

abbrev pub additional_amount : ℕ
additional_amount = 1000

abbrev pub call_data : List ℕ
call_data = 1 ∷ 2 ∷ 3 ∷ 4 ∷ []

-- The derived `==` of lists, flags and configurations.
abbrev pub list_beq : List ℕ → List ℕ → Bool
list_beq [] [] = true
list_beq [] (y ∷ ys) = false
list_beq (x ∷ xs) [] = false
list_beq (x ∷ xs) (y ∷ ys) = x == y && list_beq xs ys

abbrev pub bool_beq : Bool → Bool → Bool
bool_beq true b = b
bool_beq false b = not b

abbrev pub config_beq : PoolConfig → PoolConfig → Bool
config_beq a b =
    a.max_transaction_value == b.max_transaction_value
    && a.daily_spending_limit == b.daily_spending_limit
    && list_beq a.allowed_chains b.allowed_chains
    && bool_beq a.authorization_required b.authorization_required

-- `Sponsorship::<T>::pools(0).unwrap()` and a test of the pool.
abbrev pub pool_zero : {Ledger : Type 0} → (PoolInfo → Bool) → World Ledger → Bool
pool_zero test w = elim (get 0 w.pools) [ none ↦ false | some pool ↦ test pool ]

module _ {Ledger Origin : Type 0} (frame : Frame Ledger Origin) (layer : StorageLayer Ledger)
    (signed : Origin) where
  abbrev pub deposit : ℕ
  deposit = frame.min_pool_deposit

  -- The measured call, then the check.
  abbrev pub measure : Call → (World Ledger → Bool) → World Ledger → Verdict
  measure call check w =
      let (r, w') = apply frame layer signed call w in
      elim r [ err e ↦ call_failed e | ok u ↦ if check w' then passed else check_panicked ]

  -- The `verify` blocks.
  abbrev pub create_check : World Ledger → Bool
  create_check w = w.next_pool_id == 1

  abbrev pub fund_check : World Ledger → Bool
  fund_check = pool_zero (λ pool. pool.balance == deposit + additional_amount)

  abbrev pub update_check : World Ledger → Bool
  update_check = pool_zero (λ pool. config_beq pool.config new_config)

  abbrev pub add_check : World Ledger → Bool
  add_check w = is_some (get (0, rule.rule_type) w.pool_authorizations)

  abbrev pub remove_check : World Ledger → Bool
  remove_check w = not (is_some (get (0, rule.rule_type) w.pool_authorizations))

  abbrev pub sponsor_check : World Ledger → Bool
  sponsor_check w = w.next_transaction_id == 1

  -- `let _ = Sponsorship::<T>::create_pool(…);`
  abbrev pub with_pool : World Ledger → World Ledger
  with_pool w = (Pallet.create_pool frame signed deposit config w).1

  abbrev pub with_rule : World Ledger → World Ledger
  with_rule w = (Pallet.add_authorization_rule frame signed 0 rule (with_pool w)).1

  unfoldable pub create_pool : World Ledger → Verdict
  create_pool w = measure (Call.create_pool deposit config) create_check w

  unfoldable pub fund_pool : World Ledger → Verdict
  fund_pool w = measure (Call.fund_pool 0 additional_amount) fund_check (with_pool w)

  unfoldable pub update_pool_config : World Ledger → Verdict
  update_pool_config w = measure (Call.update_pool_config 0 new_config) update_check (with_pool w)

  unfoldable pub add_authorization_rule : World Ledger → Verdict
  add_authorization_rule w = measure (Call.add_authorization_rule 0 rule) add_check (with_pool w)

  unfoldable pub remove_authorization_rule : World Ledger → Verdict
  remove_authorization_rule w =
      measure (Call.remove_authorization_rule 0 rule.rule_type) remove_check (with_rule w)

  unfoldable pub sponsor_transaction : World Ledger → Verdict
  sponsor_transaction w =
      measure (Call.sponsor_transaction 0 1000 call_data) sponsor_check (with_pool w)
