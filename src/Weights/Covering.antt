-- ===== src/Weights/Covering.antt =====
-- The writes that the weight of a call declares, against those that the call makes.
use gas_leap.Base.{ℕ, ◌+◌, ◌≤◌, ◌≡◌, Bool, true, false, if◌then◌else◌, arith, nat_eq}
use gas_leap.Frame.{Frame}
use gas_leap.Pallet
use gas_leap.Pallet.{World, Storage}
use gas_leap.Pallet.History.{Call, dispatch}
use gas_leap.Weights.{WeightSystem, unit_weight, substrate_weight, call_weight}

-- The storage items of the pallet, each marked or not.
pub record Items : Type 0 where
  pub pools : Bool
  pub next_pool_id : Bool
  pub pool_owners : Bool
  pub pool_authorizations : Bool
  pub user_spending : Bool
  pub transaction_log : Bool
  pub next_transaction_id : Bool

abbrev pub none_of : Items
none_of = record {
  pools = false;
  next_pool_id = false;
  pool_owners = false;
  pool_authorizations = false;
  user_spending = false;
  transaction_log = false;
  next_transaction_id = false;
}

-- The items that a call writes.
abbrev pub written : Call → Items
written (Call.create_pool _ _) = record none_of {
  pools = true;
  next_pool_id = true;
  pool_owners = true;
}
written (Call.fund_pool _ _) = record none_of { pools = true }
written (Call.update_pool_config _ _) = record none_of { pools = true }
written (Call.add_authorization_rule _ _) = record none_of { pool_authorizations = true }
written (Call.remove_authorization_rule _ _) = record none_of { pool_authorizations = true }
written (Call.sponsor_transaction _ _ _) = record none_of {
  pools = true;
  transaction_log = true;
  next_transaction_id = true;
}
written (Call.process_receipt _) = none_of

abbrev bit : Bool → ℕ
bit b = if b then 1 else 0

abbrev pub count : Items → ℕ
count i =
    bit i.pools
    + bit i.next_pool_id
    + bit i.pool_owners
    + bit i.pool_authorizations
    + bit i.user_spending
    + bit i.transaction_log
    + bit i.next_transaction_id

-- `after`, but with the items that are not marked as they are in `before`.
abbrev pub overlay : {Ledger : Type 0} → Items → Storage Ledger → Storage Ledger → Storage Ledger
overlay i before after = record after {
  block_number = before.block_number;
  pools = if i.pools then after.pools else before.pools;
  next_pool_id = if i.next_pool_id then after.next_pool_id else before.next_pool_id;
  pool_owners = if i.pool_owners then after.pool_owners else before.pool_owners;
  pool_authorizations =
      if i.pool_authorizations then after.pool_authorizations else before.pool_authorizations;
  user_spending = if i.user_spending then after.user_spending else before.user_spending;
  transaction_log = if i.transaction_log then after.transaction_log else before.transaction_log;
  next_transaction_id =
      if i.next_transaction_id then after.next_transaction_id else before.next_transaction_id;
}

-- The weight that counts database writes and nothing else.
abbrev pub write_count : WeightSystem
write_count = record {
  Weight = ℕ;
  from_parts = λ ref_time proof_size. 0;
  saturating_add = λ a b. a + b;
  reads = λ n. 0;
  writes = λ n. n;
}

module _ {Ledger Origin : Type 0} (frame : Frame Ledger Origin) where
  -- A call changes at most the items of `written`, and its weight declares as many writes.
  pub writes_covered :
      (o : Origin) (c : Call) (w : World Ledger)
      → ((dispatch frame o c w).1.storage
          ≡ overlay (written c) w.storage (dispatch frame o c w).1.storage)
        × (count (written c) ≤ call_weight (unit_weight write_count) c)
        × (count (written c) ≤ call_weight (substrate_weight write_count) c)
  unfolding unit_weight substrate_weight call_weight Pallet.create_pool Pallet.fund_pool
      Pallet.update_pool_config Pallet.add_authorization_rule Pallet.remove_authorization_rule
      Pallet.sponsor_transaction Pallet.process_receipt
  writes_covered o (Call.create_pool deposit config) w = (ground arith, omega arith, omega arith)
  writes_covered o (Call.fund_pool p amount) w = (ground arith, omega arith, omega arith)
  writes_covered o (Call.update_pool_config p config) w = (ground arith, omega arith, omega arith)
  writes_covered o (Call.add_authorization_rule p rule) w = (ground arith, omega arith, omega arith)
  writes_covered o (Call.remove_authorization_rule p t) w = (ground arith, omega arith, omega arith)
  writes_covered o (Call.sponsor_transaction p target call_data) w =
      (ground arith, omega arith, omega arith)
  writes_covered o (Call.process_receipt r) w = (ground arith, omega arith, omega arith)
