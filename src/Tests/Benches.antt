-- ===== src/Tests/Benches.antt =====
-- Rules, orders of sponsoring and the benchmarks at concrete inputs.
use gas_leap.Base.{ℕ, ◌≡◌, refl, [], ◌∷◌, true, Option, none, some, ok, arith, nat_eq, pair_eq}
use gas_leap.Base.StorageMap.{get}
use gas_leap.Types.{AuthorizationType, type_eq}
use gas_leap.Gateway.Fee.{estimate_fee}
use gas_leap.Pallet
use gas_leap.Pallet.Rules.{rules_roundtrip}
use gas_leap.Pallet.Interleaving.{Sponsoring, IsReady, call, sponsors_commute}
use gas_leap.Pallet.Unlimited.{Limits, limited, account_of, sponsor_ignores_limits}
use gas_leap.Benchmarks.{rule}
use gas_leap.Benchmarks.Funded.{IsFunded}
use gas_leap.Tests.Setting.{frame, layer, moved}
use gas_leap.Tests.Scenario.{new_test_ext, bytes, fresh, pool, ready}
use gas_leap.Tests.Pallets.{ready-IsPayable}

rules_roundtrip_example :
    let (r, added) = Pallet.add_authorization_rule frame (some 1) 0 rule ready in
    let (r', removed) = Pallet.remove_authorization_rule frame (some 1) 0 rule.rule_type added in
    (r ≡ ok tt)
    × (r' ≡ ok tt)
    × (get (0, AuthorizationType.user_whitelist) added.pool_authorizations ≡ some rule)
    × (get (0, AuthorizationType.user_whitelist) removed.pool_authorizations ≡ none)
unfolding get
rules_roundtrip_example =
    rules_roundtrip frame (some 1) 0 ready 1 pool rule 0 AuthorizationType.user_whitelist refl refl
      refl

-- Accounts 2 and 3, on the one pool.
abbrev second : Sponsoring (Option ℕ)
second = record { origin = some 2; pool_id = 0; target = 2006; call_data = bytes }

abbrev third : Sponsoring (Option ℕ)
third = record { origin = some 3; pool_id = 0; target = 2006; call_data = 7 ∷ 8 ∷ 9 ∷ [] }

third-IsReady : IsReady frame third ready 3 pool 806
unfolding get estimate_fee
third-IsReady = record {
  payable = record {
    signed = refl;
    found = refl;
    active = refl;
    allowed = refl;
    priced = refl;
    covered = omega arith;
  };
  sendable = refl;
}

sponsors_commute_example :
    let s_t = call frame third (call frame second ready).1 in
    let t_s = call frame second (call frame third ready).1 in
    (s_t.0 ≡ ok tt)
    × (t_s.0 ≡ ok tt)
    × (get 0 s_t.1.pools ≡ get 0 t_s.1.pools)
    × (s_t.1.next_transaction_id ≡ t_s.1.next_transaction_id)
    × (s_t.1.ledger ≡ t_s.1.ledger)
sponsors_commute_example =
    sponsors_commute frame second third ready 2 3 pool pool 808 806 0
      (record { payable = ready-IsPayable; sendable = refl }) third-IsReady (omega arith)

-- The pool needs an authorization, pays for nothing above 1, and 1 a day.
abbrev tight : Limits
tight = record {
  max_transaction_value = 1;
  daily_spending_limit = 1;
  authorization_required = true;
  pool_authorizations = [];
  user_spending = [];
}

sponsor_ignores_limits_example :
    let (r, w) = Pallet.sponsor_transaction frame (some 2) 0 2006 bytes ready in
    let (r', w') =
      Pallet.sponsor_transaction frame (some 2) 0 2006 bytes (limited tight 0 pool ready) in
    (r' ≡ r) × (account_of (get 0 w'.pools) ≡ account_of (get 0 w.pools))
unfolding get
sponsor_ignores_limits_example =
    sponsor_ignores_limits frame (some 2) 0 2006 bytes ready pool tight refl

fresh-IsFunded :
    IsFunded frame layer
      (some 1)
      fresh
      1
      (moved 1 1000 new_test_ext)
      (moved 1 1000 (moved 1 1000 new_test_ext))
fresh-IsFunded = record {
  signer = refl;
  first = refl;
  reserves = refl;
  reserves_more = refl;
  fits = omega arith;
}
