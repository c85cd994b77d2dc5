-- ===== src/Weights.antt =====
-- pallets/sponsorship/src/weights.rs: the weights of the calls, twice over.
-- The type of weights and the database's own weights are sp_weights', a parameter.
pub mod Covering
pub mod Reading
use gas_leap.Base.{ℕ}
use gas_leap.Pallet.History.{Call}

pub record WeightSystem : Type 1 where
  pub Weight : Type 0
  pub from_parts : (ref_time proof_size : ℕ) → Weight
  pub saturating_add : Weight → Weight → Weight
  -- `DbWeight::get()`
  pub reads : ℕ → Weight
  pub writes : ℕ → Weight

-- The trait: one weight for each call.
pub record WeightInfo (Weight : Type 0) : Type 0 where
  pub create_pool : Weight
  pub fund_pool : Weight
  pub update_pool_config : Weight
  pub add_authorization_rule : Weight
  pub remove_authorization_rule : Weight
  pub sponsor_transaction : Weight
  pub process_receipt : Weight

module _ (sys : WeightSystem) where
  abbrev pub weigh : (ref_time proof_size reads writes : ℕ) → sys.Weight
  weigh ref_time proof_size r w =
      sys.saturating_add (sys.saturating_add (sys.from_parts ref_time proof_size) (sys.reads r))
        (sys.writes w)

  unfoldable pub substrate_weight : WeightInfo sys.Weight
  substrate_weight = record {
    create_pool = weigh 16000000 1489 1 3;
    fund_pool = weigh 13000000 3465 1 1;
    update_pool_config = weigh 12000000 3465 1 1;
    add_authorization_rule = weigh 11000000 3465 1 1;
    remove_authorization_rule = weigh 10000000 3465 1 1;
    sponsor_transaction = weigh 19000000 3465 2 3;
    process_receipt = weigh 16000000 3465 2 2;
  }

  -- `impl WeightInfo for ()`, which the runtime uses, with RocksDbWeight for `sys`.
  unfoldable pub unit_weight : WeightInfo sys.Weight
  unit_weight = record {
    create_pool = weigh 16000000 1489 1 3;
    fund_pool = weigh 13000000 3465 1 1;
    update_pool_config = weigh 12000000 3465 1 1;
    add_authorization_rule = weigh 11000000 3465 1 1;
    remove_authorization_rule = weigh 10000000 3465 1 1;
    sponsor_transaction = weigh 19000000 3465 2 3;
    process_receipt = weigh 16000000 3465 2 2;
  }

-- `#[pallet::weight(T::WeightInfo::…())]` of each call.
unfoldable pub call_weight : {Weight : Type 0} → WeightInfo Weight → Call → Weight
call_weight info (Call.create_pool _ _) = info.create_pool
call_weight info (Call.fund_pool _ _) = info.fund_pool
call_weight info (Call.update_pool_config _ _) = info.update_pool_config
call_weight info (Call.add_authorization_rule _ _) = info.add_authorization_rule
call_weight info (Call.remove_authorization_rule _ _) = info.remove_authorization_rule
call_weight info (Call.sponsor_transaction _ _ _) = info.sponsor_transaction
call_weight info (Call.process_receipt _) = info.process_receipt
