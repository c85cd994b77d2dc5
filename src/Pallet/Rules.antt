-- ===== src/Pallet/Rules.antt =====
-- The authorization rules of a pool: what is written, read back.
use gas_leap.Base.{ℕ, ◌≡◌, ◌&&◌, none, some, ok, arith, nat_eq, pair_eq, ◌==◌, if◌then◌else◌}
use gas_leap.Base.StorageMap.{get, insert, get-insert, get-remove}
use gas_leap.Types.{PoolInfo, AuthorizationRule, AuthorizationType, type_index, type_eq}
use gas_leap.Frame.{Frame}
use gas_leap.Pallet.{World, add_authorization_rule, remove_authorization_rule}

module _ {Ledger Origin : Type 0} (frame : Frame Ledger Origin) (o : Origin) (p : ℕ)
    (w : World Ledger) where
  -- For the owner of a pool, adding a rule and removing a type of rule both succeed. After a rule
  -- is added the pool's entry for the rule's type is the rule, whatever was there; after its type
  -- is removed again there is none. The entry of every other pool or type is what it was before,
  -- each time.
  pub rules_roundtrip :
      (who : ℕ) (info : PoolInfo) (rule : AuthorizationRule) (q : ℕ) (t : AuthorizationType)
      → frame.ensure_signed o ≡ some who
      → get p w.pools ≡ some info
      → info.owner ≡ who
      → let (r, added) = add_authorization_rule frame o p rule w in
        let (r', removed) = remove_authorization_rule frame o p rule.rule_type added in
        let here = p == q && type_index rule.rule_type == type_index t in
        (r ≡ ok tt)
        × (r' ≡ ok tt)
        × (get (q, t) added.pool_authorizations
            ≡ (if here then some rule else get (q, t) w.pool_authorizations))
        × (get (q, t) removed.pool_authorizations
            ≡ (if here then none else get (q, t) w.pool_authorizations))
  unfolding add_authorization_rule remove_authorization_rule
  rules_roundtrip who info rule q t s g own = (
    ground arith,
    ground arith,
    ground (arith, get-insert (p, rule.rule_type) (q, t) rule w.pool_authorizations),
    ground (
      arith,
      get-insert (p, rule.rule_type) (q, t) rule w.pool_authorizations,
      get-remove (p, rule.rule_type) (q, t) (insert (p, rule.rule_type) rule w.pool_authorizations),
    ),
  )
