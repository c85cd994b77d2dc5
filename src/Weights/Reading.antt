-- ===== src/Weights/Reading.antt =====
-- The reads that the weight of a call declares, against what the call depends on.
use gas_leap.Base.{
  ℕ, ◌+◌, ◌≤◌, ◌≡◌, ◌∙◌, sym, List, Result, ok, err, inl, inr, Option-cases, Result-cases, some,
  contains, leb, true, if◌then◌else◌, arith, nat_eq,
}
use gas_leap.Base.StorageMap.{get}
use gas_leap.Types.{
  PoolConfig, PoolInfo, DispatchError, Event, module_error, pool_paused, chain_not_supported,
  insufficient_funds, transaction_sponsored, is_active, AuthorizationRule, AuthorizationType,
}
use gas_leap.Gateway.{TransactionReceipt, LogLine}
use gas_leap.Gateway.Fee.{estimate_fee}
use gas_leap.Gateway.Send.{send_cross_chain_transaction}
use gas_leap.Frame.{Frame}
use gas_leap.Pallet
use gas_leap.Pallet.{World, Storage, recorded}
use gas_leap.Pallet.History.{Call, dispatch}
use gas_leap.Weights.{WeightSystem, unit_weight, substrate_weight, call_weight}
use gas_leap.Weights.Covering.{Items, none_of, count, overlay, written, write_count, writes_covered}

-- The items that a call reads.
abbrev pub read : Call → Items
read (Call.create_pool _ _) = record none_of { next_pool_id = true }
read (Call.fund_pool _ _) = record none_of { pools = true }
read (Call.update_pool_config _ _) = record none_of { pools = true }
read (Call.add_authorization_rule _ _) = record none_of { pools = true }
read (Call.remove_authorization_rule _ _) = record none_of { pools = true }
read (Call.sponsor_transaction _ _ _) = record none_of { pools = true; next_transaction_id = true }
read (Call.process_receipt _) = none_of

-- The weight that counts database reads and nothing else.
abbrev pub read_count : WeightSystem
read_count = record {
  Weight = ℕ;
  from_parts = λ ref_time proof_size. 0;
  saturating_add = λ a b. a + b;
  reads = λ n. n;
  writes = λ n. 0;
}

-- `w`, but with the items that are not marked as they are in `other`.
abbrev pub replaced : {Ledger : Type 0} → Items → Storage Ledger → World Ledger → World Ledger
replaced i other w = record w {
  storage = record (overlay i other w.storage) { block_number = w.block_number };
}

-- What a run of a call shows: its result, the currency, the events and the log lines.
abbrev pub shown :
    {Ledger : Type 0}
    → Result DispatchError (Unit {0}) × World Ledger
    → Result DispatchError (Unit {0}) × Ledger × List Event × List LogLine
shown (r, w) = (r, w.ledger, w.events, w.lines)

module _ {Ledger Origin : Type 0} (frame : Frame Ledger Origin) where
  create_pool-shown :
      (o : Origin) (deposit : ℕ) (config : PoolConfig) (w : World Ledger) (other : Storage Ledger)
      → shown (
          Pallet.create_pool frame o deposit config
            (replaced (read (Call.create_pool deposit config)) other w))
        ≡ shown (Pallet.create_pool frame o deposit config w)
  unfolding Pallet.create_pool
  create_pool-shown o deposit config w other = ground arith

  fund_pool-shown :
      (o : Origin) (p amount : ℕ) (w : World Ledger) (other : Storage Ledger)
      → shown
          (Pallet.fund_pool frame o p amount (replaced (read (Call.fund_pool p amount)) other w))
        ≡ shown (Pallet.fund_pool frame o p amount w)
  unfolding Pallet.fund_pool
  fund_pool-shown o p amount w other = ground arith

  update_pool_config-shown :
      (o : Origin) (p : ℕ) (config : PoolConfig) (w : World Ledger) (other : Storage Ledger)
      → shown (
          Pallet.update_pool_config frame o p config
            (replaced (read (Call.update_pool_config p config)) other w))
        ≡ shown (Pallet.update_pool_config frame o p config w)
  unfolding Pallet.update_pool_config
  update_pool_config-shown o p config w other = ground arith

  add_authorization_rule-shown :
      (o : Origin) (p : ℕ) (rule : AuthorizationRule) (w : World Ledger) (other : Storage Ledger)
      → shown (
          Pallet.add_authorization_rule frame o p rule
            (replaced (read (Call.add_authorization_rule p rule)) other w))
        ≡ shown (Pallet.add_authorization_rule frame o p rule w)
  unfolding Pallet.add_authorization_rule
  add_authorization_rule-shown o p rule w other = ground arith

  remove_authorization_rule-shown :
      (o : Origin) (p : ℕ) (t : AuthorizationType) (w : World Ledger) (other : Storage Ledger)
      → shown (
          Pallet.remove_authorization_rule frame o p t
            (replaced (read (Call.remove_authorization_rule p t)) other w))
        ≡ shown (Pallet.remove_authorization_rule frame o p t w)
  unfolding Pallet.remove_authorization_rule
  remove_authorization_rule-shown o p t w other = ground arith

  process_receipt-shown :
      (o : Origin) (r : TransactionReceipt) (w : World Ledger) (other : Storage Ledger)
      → shown (Pallet.process_receipt frame o r (replaced (read (Call.process_receipt r)) other w))
        ≡ shown (Pallet.process_receipt frame o r w)
  unfolding Pallet.process_receipt
  process_receipt-shown o r w other = ground arith

  -- What `sponsor_transaction` shows from its first test on.
  abbrev outcome :
      PoolInfo
      → (fee who p target : ℕ) → List ℕ
      → (id block : ℕ) → Ledger
      → List Event
      → List LogLine
      → Result DispatchError (Unit {0}) × Ledger × List Event × List LogLine
  outcome info fee who p target call_data id block ledger events lines =
      if is_active info.status
      then if contains info.config.allowed_chains target
        then if leb fee info.balance
          then (let (r, lines') =
                send_cross_chain_transaction frame.hash block p who target call_data id lines in
              elim r [
                | ok _ ↦ (
                  ok tt,
                  ledger,
                  recorded block (transaction_sponsored id p who target fee) events,
                  lines',
                )
                | err _ ↦ (err (module_error chain_not_supported), ledger, events, lines')
              ])
          else (err (module_error insufficient_funds), ledger, events, lines)
        else (err (module_error chain_not_supported), ledger, events, lines)
      else (err (module_error pool_paused), ledger, events, lines)

  sponsor_transaction-outcome :
      (o : Origin) (p target : ℕ) (call_data : List ℕ) (w : World Ledger) (who : ℕ)
      (info : PoolInfo) (fee : ℕ)
      → frame.ensure_signed o ≡ some who
      → get p w.pools ≡ some info
      → estimate_fee target call_data ≡ ok fee
      → shown (Pallet.sponsor_transaction frame o p target call_data w)
        ≡ outcome info fee who p target call_data w.next_transaction_id w.block_number w.ledger
            w.events w.lines
  unfolding Pallet.sponsor_transaction
  sponsor_transaction-outcome o p target call_data w who info fee s g f = ground arith

  sponsor_transaction-shown :
      (o : Origin) (p target : ℕ) (call_data : List ℕ) (w : World Ledger) (other : Storage Ledger)
      → shown (
          Pallet.sponsor_transaction frame o p target call_data
            (replaced (read (Call.sponsor_transaction p target call_data)) other w))
        ≡ shown (Pallet.sponsor_transaction frame o p target call_data w)
  unfolding Pallet.sponsor_transaction
  sponsor_transaction-shown o p target call_data w other =
      elim (Option-cases (frame.ensure_signed o)) [
        | inl e ↦ ground arith
        | inr (who, s) ↦ elim (Option-cases (get p w.pools)) [
          | inl e ↦ ground arith
          | inr (info, g) ↦ elim (Result-cases (estimate_fee target call_data)) [
            | inr (d, f) ↦ ground arith
            | inl (fee, f) ↦
                let read_items = read (Call.sponsor_transaction p target call_data) in
                sponsor_transaction-outcome o p target call_data (replaced read_items other w) who
                  info fee s g f
                ∙ sym (sponsor_transaction-outcome o p target call_data w who info fee s g f)
          ]
        ]
      ]

  -- What a call shows depends on at most the items of `read`, and its weight declares as many reads.
  reads_covered :
      (o : Origin) (c : Call) (w : World Ledger) (other : Storage Ledger)
      → (shown (dispatch frame o c (replaced (read c) other w)) ≡ shown (dispatch frame o c w))
        × (count (read c) ≤ call_weight (unit_weight read_count) c)
        × (count (read c) ≤ call_weight (substrate_weight read_count) c)
  unfolding unit_weight substrate_weight call_weight
  reads_covered o (Call.create_pool deposit config) w other =
      (create_pool-shown o deposit config w other, omega arith, omega arith)
  reads_covered o (Call.fund_pool p amount) w other =
      (fund_pool-shown o p amount w other, omega arith, omega arith)
  reads_covered o (Call.update_pool_config p config) w other =
      (update_pool_config-shown o p config w other, omega arith, omega arith)
  reads_covered o (Call.add_authorization_rule p rule) w other =
      (add_authorization_rule-shown o p rule w other, omega arith, omega arith)
  reads_covered o (Call.remove_authorization_rule p t) w other =
      (remove_authorization_rule-shown o p t w other, omega arith, omega arith)
  reads_covered o (Call.sponsor_transaction p target call_data) w other =
      (sponsor_transaction-shown o p target call_data w other, omega arith, omega arith)
  reads_covered o (Call.process_receipt r) w other =
      (process_receipt-shown o r w other, omega arith, omega arith)

  -- Of the pallet's storage a call changes at most the items of `written`, and what it shows (its
  -- result, the currency, the events and the log lines) depends on at most the items of `read`: with
  -- any other contents of the other items it is the same. This holds on every branch, and the weight
  -- of the call declares at least that many writes and reads, in both tables of weights. What the
  -- currency and the event log read and write is not counted.
  pub accesses_covered :
      (o : Origin) (c : Call) (w : World Ledger) (other : Storage Ledger)
      → ((dispatch frame o c w).1.storage
          ≡ overlay (written c) w.storage (dispatch frame o c w).1.storage)
        × (shown (dispatch frame o c (replaced (read c) other w)) ≡ shown (dispatch frame o c w))
        × (count (written c) ≤ call_weight (unit_weight write_count) c)
        × (count (written c) ≤ call_weight (substrate_weight write_count) c)
        × (count (read c) ≤ call_weight (unit_weight read_count) c)
        × (count (read c) ≤ call_weight (substrate_weight read_count) c)
  accesses_covered o c w other =
      let (changed, unit_writes, substrate_writes) = writes_covered frame o c w in
      let (seen, unit_reads, substrate_reads) = reads_covered o c w other in
      (changed, seen, unit_writes, substrate_writes, unit_reads, substrate_reads)
