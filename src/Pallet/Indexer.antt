-- ===== src/Pallet/Indexer.antt =====
-- An indexer off the chain, which reads the events of each block and keeps books of its own.
pub mod Mirroring
pub mod Watching
use gas_leap.Base.{ℕ, ◌+◌, ◌-◌, ◌≡◌, List, [], ◌∷◌, Option, none, some, is_some, nat_eq, pair_eq}
use gas_leap.Base.StorageMap.{StorageMap, get, insert, remove}
use gas_leap.Types.{
  PoolInfo, TransactionRecord, AuthorizationType, type_eq, Event, pool_created, pool_funded,
  transaction_sponsored, authorization_rule_added, authorization_rule_removed,
}
use gas_leap.Pallet.{Storage}

-- What the index has of a pool, and of a transaction.
pub record Account : Type 0 where
  pub owner : ℕ
  pub balance : ℕ
  pub spent : ℕ

pub record Transaction : Type 0 where
  pub pool_id : ℕ
  pub user : ℕ
  pub target_chain : ℕ
  pub gas_cost : ℕ

-- Of a rule the index has the pool and the type.
pub record Index : Type 0 where
  pub accounts : StorageMap ℕ Account
  pub transactions : StorageMap ℕ Transaction
  pub rules : StorageMap (ℕ × AuthorizationType) (Unit {0})

abbrev pub blank : Index
blank = record { accounts = []; transactions = []; rules = [] }

-- A pool that the index does not have is left out.
abbrev pub revise : (Account → Account) → ℕ → StorageMap ℕ Account → StorageMap ℕ Account
revise f p accounts = elim (get p accounts) [ none ↦ accounts | some a ↦ insert p (f a) accounts ]

abbrev pub absorb : Event → Index → Index
absorb (pool_created p owner deposit) i = record i {
  accounts = insert p (record { owner = owner; balance = deposit; spent = 0 }) i.accounts;
}
absorb (pool_funded p amount new_balance) i = record i {
  accounts = revise (λ a. record a { balance = new_balance }) p i.accounts;
}
absorb (transaction_sponsored id p user chain cost) i = record i {
  accounts =
      revise (λ a. record a { balance = a.balance - cost; spent = a.spent + cost }) p i.accounts;
  transactions =
      insert id (record { pool_id = p; user = user; target_chain = chain; gas_cost = cost })
        i.transactions;
}
absorb (authorization_rule_added p t) i = record i { rules = insert (p, t) tt i.rules }
absorb (authorization_rule_removed p t) i = record i { rules = remove (p, t) i.rules }
absorb _ i = i

-- The events of a block, the latest first.
abbrev pub replay : List Event → Index → Index
replay [] i = i
replay (event ∷ events) i = absorb event (replay events i)

abbrev pub account_of : Option PoolInfo → Option Account
account_of none = none
account_of (some info) =
    some (record { owner = info.owner; balance = info.balance; spent = info.total_spent })

abbrev pub transaction_of : Option TransactionRecord → Option Transaction
transaction_of none = none
transaction_of (some r) = some (record {
  pool_id = r.pool_id;
  user = r.user;
  target_chain = r.target_chain;
  gas_cost = r.gas_cost;
})

-- The index has the pools with their accounts, the transactions, and the types of the rules, and no
-- others.
abbrev pub MirrorsPools : {Ledger : Type 0} → Index → Storage Ledger → Type 0
MirrorsPools i s = (p : ℕ) → get p i.accounts ≡ account_of (get p s.pools)

abbrev pub MirrorsLog : {Ledger : Type 0} → Index → Storage Ledger → Type 0
MirrorsLog i s = (n : ℕ) → get n i.transactions ≡ transaction_of (get n s.transaction_log)

abbrev pub MirrorsRules : {Ledger : Type 0} → Index → Storage Ledger → Type 0
MirrorsRules i s =
    (p : ℕ) (t : AuthorizationType)
    → is_some (get (p, t) i.rules) ≡ is_some (get (p, t) s.pool_authorizations)
