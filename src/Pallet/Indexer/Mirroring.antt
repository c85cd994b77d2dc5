-- ===== src/Pallet/Indexer/Mirroring.antt =====
-- What a transition does to the books of the indexer.
use gas_leap.Base.{◌≤◌, ◌+◌, ◌-◌, arith, nat_eq, pair_eq, u128_max, saturating_add}
use gas_leap.Base.StorageMap.{get-insert, get-remove}
use gas_leap.Types.{
  type_eq, pool_created, pool_funded, pool_config_updated, authorization_rule_added,
  authorization_rule_removed, transaction_sponsored,
}
use gas_leap.Frame.{Frame, CurrencyLaws}
use gas_leap.Pallet.{Storage, recorded_later}
use gas_leap.Pallet.Change.{
  Change, same, created, funded, configured, authorized, deauthorized, sponsored, new_pool, charge,
  new_record,
}
use gas_leap.Pallet.Solvency.{IsSolvent}
use gas_leap.Pallet.Audit.{account_fits}
use gas_leap.Pallet.Indexer.{Index, replay, MirrorsPools, MirrorsLog, MirrorsRules}

module _ {Ledger Origin : Type 0} (frame : Frame Ledger Origin) (laws : CurrencyLaws frame) where
  pub Change-MirrorsPools :
      (i : Index) (s s' : Storage Ledger)
      → Change frame s s'
      → 1 ≤ s.block_number
      → IsSolvent frame laws s
      → MirrorsPools (replay s.events i) s
      → MirrorsPools (replay s'.events i) s'
  Change-MirrorsPools i s s' (same e) b v h = rw e h
  Change-MirrorsPools i s s' (created who deposit config l r _ e) b v h = rw e λ p. ground (
    arith,
    recorded_later s.block_number (pool_created s.next_pool_id who deposit) s.events b,
    h p,
    get-insert s.next_pool_id p (new_pool frame s who deposit config) s.pools,
    get-insert s.next_pool_id p (record { owner = who; balance = deposit; spent = 0 })
        (replay s.events i).accounts,
  )
  Change-MirrorsPools i s s' (funded q amount info l g a r e) b v h = rw e λ p. ground (
    arith,
    recorded_later s.block_number
        (pool_funded q amount (saturating_add u128_max info.balance amount)) s.events b,
    h p,
    h q,
    get-insert q p (record info { balance = saturating_add u128_max info.balance amount }) s.pools,
    get-insert q p
        (record {
          owner = info.owner;
          balance = saturating_add u128_max info.balance amount;
          spent = info.total_spent;
        })
        (replay s.events i).accounts,
  )
  Change-MirrorsPools i s s' (configured q info config g e) b v h = rw e λ p. ground (
    arith,
    recorded_later s.block_number (pool_config_updated q info.owner) s.events b,
    h p,
    get-insert q p (record info { config = config }) s.pools,
  )
  Change-MirrorsPools i s s' (authorized q _ rule _ e) b v h =
      rw (e, recorded_later s.block_number (authorization_rule_added q rule.rule_type) s.events b) h
  Change-MirrorsPools i s s' (deauthorized q _ t' _ e) b v h =
      rw (e, recorded_later s.block_number (authorization_rule_removed q t') s.events b) h
  Change-MirrorsPools i s s' (sponsored q who chain bytes cost info g a _ _ _ k e) b v h = rw e λ p.
      ground (
        arith,
        recorded_later s.block_number (transaction_sponsored s.next_transaction_id q who chain cost)
            s.events b,
        h p,
        h q,
        account_fits frame laws s q info v g,
        get-insert q p (charge frame info cost) s.pools,
        get-insert q p
            (record {
              owner = info.owner;
              balance = info.balance - cost;
              spent = info.total_spent + cost;
            })
            (replay s.events i).accounts,
      )

module _ {Ledger Origin : Type 0} (frame : Frame Ledger Origin) where
  pub Change-MirrorsLog :
      (i : Index) (s s' : Storage Ledger)
      → Change frame s s'
      → 1 ≤ s.block_number
      → MirrorsLog (replay s.events i) s
      → MirrorsLog (replay s'.events i) s'
  Change-MirrorsLog i s s' (same e) b h = rw e h
  Change-MirrorsLog i s s' (created who deposit config _ _ _ e) b h =
      rw (e, recorded_later s.block_number (pool_created s.next_pool_id who deposit) s.events b) h
  Change-MirrorsLog i s s' (funded q amount info _ _ _ _ e) b h =
      rw
        (
          e,
          recorded_later s.block_number
              (pool_funded q amount (saturating_add u128_max info.balance amount)) s.events b,
        )
        h
  Change-MirrorsLog i s s' (configured q info _ _ e) b h =
      rw (e, recorded_later s.block_number (pool_config_updated q info.owner) s.events b) h
  Change-MirrorsLog i s s' (authorized q _ rule _ e) b h =
      rw (e, recorded_later s.block_number (authorization_rule_added q rule.rule_type) s.events b) h
  Change-MirrorsLog i s s' (deauthorized q _ t' _ e) b h =
      rw (e, recorded_later s.block_number (authorization_rule_removed q t') s.events b) h
  Change-MirrorsLog i s s' (sponsored q who chain bytes cost info g a _ _ _ k e) b h = rw e λ n.
      ground (
        arith,
        recorded_later s.block_number (transaction_sponsored s.next_transaction_id q who chain cost)
            s.events b,
        h n,
        get-insert s.next_transaction_id n (new_record frame s q who chain bytes cost)
            s.transaction_log,
        get-insert s.next_transaction_id n
            (record { pool_id = q; user = who; target_chain = chain; gas_cost = cost })
            (replay s.events i).transactions,
      )

  pub Change-MirrorsRules :
      (i : Index) (s s' : Storage Ledger)
      → Change frame s s'
      → 1 ≤ s.block_number
      → MirrorsRules (replay s.events i) s
      → MirrorsRules (replay s'.events i) s'
  Change-MirrorsRules i s s' (same e) b h = rw e h
  Change-MirrorsRules i s s' (created who deposit config _ _ _ e) b h =
      rw (e, recorded_later s.block_number (pool_created s.next_pool_id who deposit) s.events b) h
  Change-MirrorsRules i s s' (funded q amount info _ _ _ _ e) b h =
      rw
        (
          e,
          recorded_later s.block_number
              (pool_funded q amount (saturating_add u128_max info.balance amount)) s.events b,
        )
        h
  Change-MirrorsRules i s s' (configured q info _ _ e) b h =
      rw (e, recorded_later s.block_number (pool_config_updated q info.owner) s.events b) h
  Change-MirrorsRules i s s' (authorized q info rule g e) b h = rw e λ p t. ground (
    arith,
    recorded_later s.block_number (authorization_rule_added q rule.rule_type) s.events b,
    h p t,
    get-insert (q, rule.rule_type) (p, t) rule s.pool_authorizations,
    get-insert (q, rule.rule_type) (p, t) tt (replay s.events i).rules,
  )
  Change-MirrorsRules i s s' (deauthorized q info t' g e) b h = rw e λ p t. ground (
    arith,
    recorded_later s.block_number (authorization_rule_removed q t') s.events b,
    h p t,
    get-remove (q, t') (p, t) s.pool_authorizations,
    get-remove (q, t') (p, t) (replay s.events i).rules,
  )
  Change-MirrorsRules i s s' (sponsored q who chain _ cost _ _ _ _ _ _ _ e) b h =
      rw
        (
          e,
          recorded_later s.block_number
              (transaction_sponsored s.next_transaction_id q who chain cost) s.events b,
        )
        h
