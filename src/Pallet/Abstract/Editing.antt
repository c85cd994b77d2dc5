-- ===== src/Pallet/Abstract/Editing.antt =====
-- What `update_pool_config`, `add_authorization_rule` and `remove_authorization_rule` write in the
-- abstract, with the events in no order.
use mathlib.Core.List.{Perm}
use mathlib.Core.List.Perm
use mathlib.Core.Path.{fun_ext}
use mathlib.Core.Quot
use gas_leap.Types.{pool_config_updated, authorization_rule_added, authorization_rule_removed}
use mathlib.Core.Quot.{Quot}
use gas_leap.Base.{
  ◌==◌, Bool-cases, inl, inr, ℕ, ◌≡◌, ◌≢◌, refl, arith, List, [], nat_eq, pair_eq, Option, ap, sym,
  Eq,
}
use gas_leap.Types.{PoolInfo, PoolConfig, AuthorizationRule, AuthorizationType, Event, type_eq}
use gas_leap.Pallet.{recorded}
use gas_leap.Pallet.History.{Call}
use gas_leap.Pallet.Abstract.{View, put, drop}

-- Events in no order.
abbrev pub Bag : Type 0
Bag = Quot (Perm {A = Event})

bag-swap :
    (block : ℕ) (a b : Event) (es : List Event)
    → ◌≡◌ {A = Bag}
        (Quot.mk (recorded block a (recorded block b es)))
        (Quot.mk (recorded block b (recorded block a es)))
unfolding recorded
bag-swap block a b es = elim (Bool-cases (block == 0)) [
  | inl zero ↦ rw zero refl
  | inr later ↦ rw later (Quot.sound (Perm.swap b a es))
]

-- A view without its events, and they in no order.
abbrev pub unordered : {Ledger : Type 0} → View Ledger → View Ledger × Bag
unordered v = (record v { events = [] }, Quot.mk v.events)

module _ {K V : Type 0} ⦃e : Eq K⦄ where
  pub put_other : (k j : K) (x : V) (f : K → Option V) → k ≢ j → put k x f j ≡ f j
  put_other k j x f ne = ground (arith, e.beq_iff k j)

  pub put-put :
      (k j : K) (x y : V) (f : K → Option V) → k ≢ j → put k x (put j y f) ≡ put j y (put k x f)
  put-put k j x y f ne = fun_ext (λ i. ground (arith, e.beq_iff k i, e.beq_iff j i))

  pub put-drop :
      (k j : K) (x : V) (f : K → Option V) → k ≢ j → put k x (drop j f) ≡ drop j (put k x f)
  put-drop k j x f ne = fun_ext (λ i. ground (arith, e.beq_iff k i, e.beq_iff j i))

  pub drop-drop : (k j : K) (f : K → Option V) → k ≢ j → drop k (drop j f) ≡ drop j (drop k f)
  drop-drop k j f ne = fun_ext (λ i. ground (arith, e.beq_iff k i, e.beq_iff j i))

-- What a management call on pool `p` writes: to the pool and to its rules only.
pub record Edit (p : ℕ) : Type 0 where
  pub pools : (ℕ → Option PoolInfo) → ℕ → Option PoolInfo
  pub rules :
      (ℕ × AuthorizationType → Option AuthorizationRule)
      → ℕ × AuthorizationType
      → Option AuthorizationRule
  pub event : Event
  pub pools_elsewhere : (m : ℕ → Option PoolInfo) (q : ℕ) → p ≢ q → pools m q ≡ m q
  pub pools_put :
      (m : ℕ → Option PoolInfo) (q : ℕ) (x : PoolInfo)
      → p ≢ q
      → put q x (pools m) ≡ pools (put q x m)
  pub rules_put :
      (m : ℕ × AuthorizationType → Option AuthorizationRule) (q : ℕ) (t : AuthorizationType)
      (r : AuthorizationRule)
      → p ≢ q
      → put (q, t) r (rules m) ≡ rules (put (q, t) r m)
  pub rules_drop :
      (m : ℕ × AuthorizationType → Option AuthorizationRule) (q : ℕ) (t : AuthorizationType)
      → p ≢ q
      → drop (q, t) (rules m) ≡ rules (drop (q, t) m)

abbrev pub edit : {Ledger : Type 0} {p : ℕ} → Edit p → View Ledger → View Ledger
edit e v = record v {
  pools = e.pools v.pools;
  pool_authorizations = e.rules v.pool_authorizations;
  events = recorded v.block_number e.event v.events;
}

pub unordered-edit :
    {Ledger : Type 0} {p : ℕ} (e : Edit p) (v : View Ledger) {ps : ℕ → Option PoolInfo}
    {rs : ℕ × AuthorizationType → Option AuthorizationRule} (event : Event) (es : List Event)
    → ps ≡ e.pools v.pools
    → rs ≡ e.rules v.pool_authorizations
    → unordered (record v {
      pools = ps;
      pool_authorizations = rs;
      events = recorded v.block_number event (recorded v.block_number e.event es);
    })
      ≡ unordered (edit e (record v { events = recorded v.block_number event es }))
unordered-edit e v event es a b = λ i. (
  record v { pools = a i; pool_authorizations = b i; events = [] },
  bag-swap v.block_number event e.event es i,
)

-- The calls by which an owner manages a pool.
pub data Management : Type 0 where
  configure : PoolConfig → Management
  authorize : AuthorizationRule → Management
  deauthorize : AuthorizationType → Management

-- The call, for a pool.
abbrev pub on : ℕ → Management → Call
on p (configure config) = Call.update_pool_config p config
on p (authorize rule) = Call.add_authorization_rule p rule
on p (deauthorize t) = Call.remove_authorization_rule p t

unfoldable pub edit_of : (p : ℕ) → Management → PoolInfo → Edit p
edit_of p (configure config) info = record {
  pools = put p (record info { config = config });
  rules = λ m. m;
  event = pool_config_updated p info.owner;
  pools_elsewhere = λ m q ne. put_other p q (record info { config = config }) m ne;
  pools_put = λ m q x ne. put-put q p x (record info { config = config }) m (λ h. ne (sym h));
  rules_put = λ m q t r ne. refl;
  rules_drop = λ m q t ne. refl;
}
edit_of p (authorize rule) info = record {
  pools = λ m. m;
  rules = put (p, rule.rule_type) rule;
  event = authorization_rule_added p rule.rule_type;
  pools_elsewhere = λ m q ne. refl;
  pools_put = λ m q x ne. refl;
  rules_put = λ m q t r ne.
      put-put (q, t) (p, rule.rule_type) r rule m
        (λ h. ne (sym (ap (λ (k : ℕ × AuthorizationType). k.0) h)));
  rules_drop = λ m q t ne. sym (
      put-drop (p, rule.rule_type) (q, t) rule m
        (λ h. ne (ap (λ (k : ℕ × AuthorizationType). k.0) h)));
}
edit_of p (deauthorize s) info = record {
  pools = λ m. m;
  rules = drop (p, s);
  event = authorization_rule_removed p s;
  pools_elsewhere = λ m q ne. refl;
  pools_put = λ m q x ne. refl;
  rules_put = λ m q t r ne.
      put-drop (q, t) (p, s) r m (λ h. ne (sym (ap (λ (k : ℕ × AuthorizationType). k.0) h)));
  rules_drop = λ m q t ne.
      drop-drop (q, t) (p, s) m (λ h. ne (sym (ap (λ (k : ℕ × AuthorizationType). k.0) h)));
}
