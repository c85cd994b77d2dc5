-- ===== src/Pallet/Integrity.antt =====
-- The ids of pools and records, and what records and rules refer to.
use gas_leap.Base.{
  ℕ, ◌<◌, ◌≡◌, refl, ap, ◌∙◌, Bool, true, false, Option, none, some, is_some, arith, nat_eq,
  pair_eq, ◌==◌, if◌then◌else◌, ltb, u32_max, u64_max, u128_max, saturating_add,
}
use gas_leap.Base.StorageMap.{get, get-insert, get-remove}
use gas_leap.Types.{TransactionRecord, AuthorizationRule, AuthorizationType, type_eq}
use gas_leap.Frame.{Frame}
use gas_leap.Pallet.{World, Storage}
use gas_leap.Pallet.Change.{
  Change, same, created, funded, configured, authorized, deauthorized, sponsored, new_pool, charge,
  new_record,
}
use gas_leap.Pallet.History.{StorageLayer, Reach, Reach-invariant}

module _ {Ledger : Type 0} where
  abbrev pub has_pool : Storage Ledger → ℕ → Bool
  has_pool s p = is_some (get p s.pools)

  -- What stands under `n` in the log is the record `n`, of a pool that is there.
  abbrev pub RecordRefers : Storage Ledger → ℕ → Option TransactionRecord → Type 0
  RecordRefers s n none = Unit
  RecordRefers s n (some r) = (r.id ≡ n) × (has_pool s r.pool_id ≡ true)

  -- What stands under a pool and a type is a rule of this type, and the pool is there.
  abbrev pub RuleRefers : Storage Ledger → ℕ → AuthorizationType → Option AuthorizationRule → Type 0
  RuleRefers s p t none = Unit
  RuleRefers s p t (some rule) = (rule.rule_type ≡ t) × (has_pool s p ≡ true)

  -- The ids given so far are 0, 1, … up to the counter, until it sticks at its largest value.
  abbrev NumbersPools : Storage Ledger → Type 0
  NumbersPools s = s.next_pool_id < u32_max → (p : ℕ) → has_pool s p ≡ ltb p s.next_pool_id

  abbrev NumbersRecords : Storage Ledger → Type 0
  NumbersRecords s =
      s.next_transaction_id < u64_max
      → (n : ℕ) → is_some (get n s.transaction_log) ≡ ltb n s.next_transaction_id

  abbrev Refers : Storage Ledger → Type 0
  Refers s =
      ((n : ℕ) → RecordRefers s n (get n s.transaction_log))
      × ((p : ℕ) (t : AuthorizationType) → RuleRefers s p t (get (p, t) s.pool_authorizations))

  RuleRefers-if :
      (s : Storage Ledger) (p : ℕ) (t : AuthorizationType) (rule : AuthorizationRule) (b : Bool)
      (o : Option AuthorizationRule)
      → (b ≡ true → RuleRefers s p t (some rule))
      → RuleRefers s p t o
      → RuleRefers s p t (if b then some rule else o)
  RuleRefers-if s p t rule true o new old = new refl
  RuleRefers-if s p t rule false o new old = old

  RuleRefers-unless :
      (s : Storage Ledger) (p : ℕ) (t : AuthorizationType) (b : Bool) (o : Option AuthorizationRule)
      → RuleRefers s p t o
      → RuleRefers s p t (if b then none else o)
  RuleRefers-unless s p t true o old = tt
  RuleRefers-unless s p t false o old = old

  RecordRefers-if :
      (s : Storage Ledger) (n : ℕ) (r : TransactionRecord) (b : Bool) (o : Option TransactionRecord)
      → (b ≡ true → RecordRefers s n (some r))
      → RecordRefers s n o
      → RecordRefers s n (if b then some r else o)
  RecordRefers-if s n r true o new old = new refl
  RecordRefers-if s n r false o new old = old

module _ {Ledger Origin : Type 0} (frame : Frame Ledger Origin) where
  -- No pool ever goes.
  Change-has_pool :
      (s s' : Storage Ledger)
      → Change frame s s'
      → (p : ℕ) → has_pool s p ≡ true
      → has_pool s' p ≡ true
  Change-has_pool s s' (same e) p h = rw e h
  Change-has_pool s s' (created who deposit config l r _ e) p h =
      rw e
        (ground (arith, get-insert s.next_pool_id p (new_pool frame s who deposit config) s.pools))
  Change-has_pool s s' (funded q amount info l g a r e) p h = rw e (
      ground (
        arith,
        get-insert q p (record info { balance = saturating_add u128_max info.balance amount })
            s.pools,
      ))
  Change-has_pool s s' (configured q info config g e) p h =
      rw e (ground (arith, get-insert q p (record info { config = config }) s.pools))
  Change-has_pool s s' (authorized _ _ _ _ e) p h = rw e h
  Change-has_pool s s' (deauthorized _ _ _ _ e) p h = rw e h
  Change-has_pool s s' (sponsored q who chain bytes cost info g a _ _ _ k e) p h =
      rw e (ground (arith, get-insert q p (charge frame info cost) s.pools))

  Change-NumbersPools :
      (s s' : Storage Ledger) → Change frame s s' → NumbersPools s → NumbersPools s'
  Change-NumbersPools s s' (same e) h = rw e h
  Change-NumbersPools s s' (created who deposit config l r _ e) h = rw e λ lt p. ground (
    arith,
    h (omega arith) p,
    get-insert s.next_pool_id p (new_pool frame s who deposit config) s.pools,
  )
  Change-NumbersPools s s' (funded q amount info l g a r e) h = rw e λ lt p. ground (
    arith,
    h lt p,
    get-insert q p (record info { balance = saturating_add u128_max info.balance amount }) s.pools,
  )
  Change-NumbersPools s s' (configured q info config g e) h =
      rw e λ lt p. ground (arith, h lt p, get-insert q p (record info { config = config }) s.pools)
  Change-NumbersPools s s' (authorized _ _ _ _ e) h = rw e h
  Change-NumbersPools s s' (deauthorized _ _ _ _ e) h = rw e h
  Change-NumbersPools s s' (sponsored q who chain bytes cost info g a _ _ _ k e) h =
      rw e λ lt p. ground (arith, h lt p, get-insert q p (charge frame info cost) s.pools)

  Change-NumbersRecords :
      (s s' : Storage Ledger) → Change frame s s' → NumbersRecords s → NumbersRecords s'
  Change-NumbersRecords s s' (same e) h = rw e h
  Change-NumbersRecords s s' (created who deposit config l r _ e) h = rw e h
  Change-NumbersRecords s s' (funded q amount info l g a r e) h = rw e h
  Change-NumbersRecords s s' (configured q info config g e) h = rw e h
  Change-NumbersRecords s s' (authorized _ _ _ _ e) h = rw e h
  Change-NumbersRecords s s' (deauthorized _ _ _ _ e) h = rw e h
  Change-NumbersRecords s s' (sponsored q who chain bytes cost info g a _ _ _ k e) h = rw e λ lt n.
      ground (
        arith,
        h (omega arith) n,
        get-insert s.next_transaction_id n (new_record frame s q who chain bytes cost)
            s.transaction_log,
      )

  RecordRefers-grows :
      (s s' : Storage Ledger) (n : ℕ) (o : Option TransactionRecord)
      → ((p : ℕ) → has_pool s p ≡ true → has_pool s' p ≡ true)
      → RecordRefers s n o
      → RecordRefers s' n o
  RecordRefers-grows s s' n none grows h = tt
  RecordRefers-grows s s' n (some r) grows (own, there) = (own, grows r.pool_id there)

  RuleRefers-grows :
      (s s' : Storage Ledger) (p : ℕ) (t : AuthorizationType) (o : Option AuthorizationRule)
      → ((p : ℕ) → has_pool s p ≡ true → has_pool s' p ≡ true)
      → RuleRefers s p t o
      → RuleRefers s' p t o
  RuleRefers-grows s s' p t none grows h = tt
  RuleRefers-grows s s' p t (some rule) grows (own, there) = (own, grows p there)

  -- Where neither the log nor the rules change.
  keeps :
      (s s' : Storage Ledger)
      → s'.transaction_log ≡ s.transaction_log
      → s'.pool_authorizations ≡ s.pool_authorizations
      → ((p : ℕ) → has_pool s p ≡ true → has_pool s' p ≡ true)
      → Refers s
      → Refers s'
  keeps s s' same_log same_rules grows (records, rules) = (
    λ n. rw same_log (RecordRefers-grows s s' n (get n s.transaction_log) grows (records n)),
    λ p t.
        rw same_rules
          (RuleRefers-grows s s' p t (get (p, t) s.pool_authorizations) grows (rules p t)),
  )

  Change-Refers : (s s' : Storage Ledger) → Change frame s s' → Refers s → Refers s'
  Change-Refers s s' (same e) h = rw e h
  Change-Refers s s' (created who deposit config l r k e) h =
      keeps s s' (ground arith) (ground arith)
        (Change-has_pool s s' (created who deposit config l r k e)) h
  Change-Refers s s' (funded q amount info l g a r e) h =
      keeps s s' (ground arith) (ground arith)
        (Change-has_pool s s' (funded q amount info l g a r e)) h
  Change-Refers s s' (configured q info config g e) h =
      keeps s s' (ground arith) (ground arith) (Change-has_pool s s' (configured q info config g e))
        h
  Change-Refers s s' (authorized q info rule g e) (records, rules) = rw e (
    records,
    λ p t. rw (get-insert (q, rule.rule_type) (p, t) rule s.pool_authorizations) (
        RuleRefers-if s p t rule (pair_eq.beq (q, rule.rule_type) (p, t))
          (get (p, t) s.pool_authorizations)
          (λ same_key.
            let key = (pair_eq.beq_iff (q, rule.rule_type) (p, t)).0 same_key in
            (ap (λ k. k.1) key, ground (arith, ap (λ k. k.0) key)))
          (rules p t)),
  )
  Change-Refers s s' (deauthorized q info rule_type g e) (records, rules) = rw e (
    records,
    λ p t. rw (get-remove (q, rule_type) (p, t) s.pool_authorizations) (
        RuleRefers-unless s p t (pair_eq.beq (q, rule_type) (p, t))
          (get (p, t) s.pool_authorizations) (rules p t)),
  )
  Change-Refers s s' (sponsored q who chain bytes cost info g a allowed priced sendable k e)
        (records, rules) =
      let grows =
        Change-has_pool s s'
          (sponsored q who chain bytes cost info g a allowed priced sendable k e) in
      let r = new_record frame s q who chain bytes cost in
      (
        λ n.
            rw
              (ap (λ x. get n x.transaction_log) e
                ∙ get-insert s.next_transaction_id n r s.transaction_log)
              (RecordRefers-if s' n r (s.next_transaction_id == n) (get n s.transaction_log)
                (λ same_key. (ground arith, grows q (ground arith)))
                (RecordRefers-grows s s' n (get n s.transaction_log) grows (records n))),
        λ p t.
            rw (ap (λ x. get (p, t) x.pool_authorizations) e)
              (RuleRefers-grows s s' p t (get (p, t) s.pool_authorizations) grows (rules p t)),
      )

  -- In every reachable state in which no id counter has reached its end, the ids of the pools, and those
  -- of the records, are exactly the numbers below the counter. Every record stands under its own id
  -- and is of a pool that is there; every rule stands under its own type, for a pool that is there.
  pub ids_and_references :
      (layer : StorageLayer Ledger) {w : World Ledger}
      → Reach frame layer w
      → w.next_pool_id < u32_max
      → w.next_transaction_id < u64_max
      → ((p : ℕ) → has_pool w.storage p ≡ ltb p w.next_pool_id)
        × ((n : ℕ) → is_some (get n w.transaction_log) ≡ ltb n w.next_transaction_id)
        × ((n : ℕ) → RecordRefers w.storage n (get n w.transaction_log))
        × ((p : ℕ) (t : AuthorizationType)
            → RuleRefers w.storage p t (get (p, t) w.pool_authorizations))
  unfolding get
  ids_and_references layer r pools records =
      let (numbers, logged, refers) =
        Reach-invariant frame layer (λ s. NumbersPools s × NumbersRecords s × Refers s)
          (λ l b. (λ lt p. ground arith, λ lt n. ground arith, (λ n. tt, λ p t. tt)))
          (λ s s' c (h, k, m).
            (Change-NumbersPools s s' c h, Change-NumbersRecords s s' c k, Change-Refers s s' c m))
          (λ s n h. h) (λ s l grows h. h) r in
      (numbers pools, logged records, refers.0, refers.1)
