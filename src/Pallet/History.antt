-- ===== src/Pallet/History.antt =====
-- Histories of the chain: calls through FRAME's storage layer, new blocks, and what the rest of
-- the runtime does to the currency.
use gas_leap.Base.{ℕ, ◌+◌, ◌≤◌, ◌≡◌, refl, ok, err, Result-cases, inl, inr, [], List}
use gas_leap.Types.{PoolConfig, AuthorizationRule, AuthorizationType, DispatchError}
use gas_leap.Gateway.{TransactionReceipt, LogLine}
use gas_leap.Frame.{Frame}
use gas_leap.Pallet
use gas_leap.Pallet.{World, Storage, Dispatch}
use gas_leap.Pallet.Change.{Change, same}
use gas_leap.Pallet.Refinement.{
  create_pool-Change, fund_pool-Change, update_pool_config-Change, add_authorization_rule-Change,
  remove_authorization_rule-Change, sponsor_transaction-Change, process_receipt-Change,
}

-- The calls of the pallet, and the function that each is dispatched to.
pub data Call : Type 0 where
  create_pool : ℕ → PoolConfig → Call
  fund_pool : (pool_id amount : ℕ) → Call
  update_pool_config : ℕ → PoolConfig → Call
  add_authorization_rule : ℕ → AuthorizationRule → Call
  remove_authorization_rule : ℕ → AuthorizationType → Call
  sponsor_transaction : (pool_id target_chain : ℕ) → List ℕ → Call
  process_receipt : TransactionReceipt → Call

-- `with_storage_layer`, which the pallet macro puts round every call: an error takes back what
-- was written to storage. Log lines stay.
pub record StorageLayer (Ledger : Type 0) : Type 0 where
  pub with_storage_layer : Dispatch Ledger → Dispatch Ledger
  pub commits :
      (f : Dispatch Ledger) (w : World Ledger)
      → (f w).0 ≡ ok tt
      → with_storage_layer f w ≡ (ok tt, (f w).1)
  pub rolls_back :
      (f : Dispatch Ledger) (w : World Ledger) (e : DispatchError)
      → (f w).0 ≡ err e
      → with_storage_layer f w ≡ (err e, record { storage = w.storage; lines = (f w).1.lines })

module _ {Ledger Origin : Type 0} (frame : Frame Ledger Origin) where
  abbrev pub dispatch : Origin → Call → Dispatch Ledger
  dispatch o (create_pool deposit config) = Pallet.create_pool frame o deposit config
  dispatch o (fund_pool pool_id amount) = Pallet.fund_pool frame o pool_id amount
  dispatch o (update_pool_config pool_id config) = Pallet.update_pool_config frame o pool_id config
  dispatch o (add_authorization_rule pool_id rule) =
      Pallet.add_authorization_rule frame o pool_id rule
  dispatch o (remove_authorization_rule pool_id rule_type) =
      Pallet.remove_authorization_rule frame o pool_id rule_type
  dispatch o (sponsor_transaction pool_id target_chain call_data) =
      Pallet.sponsor_transaction frame o pool_id target_chain call_data
  dispatch o (process_receipt receipt) = Pallet.process_receipt frame o receipt

  pub dispatch-Change :
      (o : Origin) (c : Call) (w : World Ledger)
      → (dispatch o c w).0 ≡ ok tt
      → Change frame w.storage (dispatch o c w).1.storage
  dispatch-Change o (create_pool deposit config) w h = create_pool-Change frame o w deposit config h
  dispatch-Change o (fund_pool pool_id amount) w h = fund_pool-Change frame o w pool_id amount h
  dispatch-Change o (update_pool_config pool_id config) w h =
      update_pool_config-Change frame o w pool_id config h
  dispatch-Change o (add_authorization_rule pool_id rule) w h =
      add_authorization_rule-Change frame o w pool_id rule h
  dispatch-Change o (remove_authorization_rule pool_id rule_type) w h =
      remove_authorization_rule-Change frame o w pool_id rule_type h
  dispatch-Change o (sponsor_transaction pool_id target_chain call_data) w h =
      sponsor_transaction-Change frame o w pool_id target_chain call_data h
  dispatch-Change o (process_receipt receipt) w h = process_receipt-Change frame o w receipt h

module _ {Ledger Origin : Type 0} (frame : Frame Ledger Origin) (layer : StorageLayer Ledger) where
  -- What others did to the currency: they may reserve, and release or slash what they have reserved,
  -- but nothing of what this pallet has reserved.
  abbrev pub SparesPools : (before after : Ledger) → Type 0
  SparesPools before after =
      (who : ℕ)
      → frame.reserved_balance before who + frame.reserved_by_others after who
        ≤ frame.reserved_balance after who + frame.reserved_by_others before who

  -- A call as the runtime makes it.
  abbrev pub apply : Origin → Call → Dispatch Ledger
  apply o c = layer.with_storage_layer (dispatch frame o c)

  -- Through the layer every call, successful or not, makes a transition of Change: the storage stays;
  -- or a reserved deposit of at least the minimum becomes a new pool under the next id; or a reserved
  -- amount is added to an active pool; or a pool gets a new configuration, a rule more or a rule less;
  -- or an active pool is charged the quoted fee, which it can pay, for call data of 1 to 1024 bytes on
  -- a chain that it allows, and the record is logged under the next id. But for the first, each with
  -- its event.
  pub apply-Change :
      (o : Origin) (c : Call) (w : World Ledger) → Change frame w.storage (apply o c w).1.storage
  apply-Change o c w = elim (Result-cases (dispatch frame o c w).0) [
    | inl (_, h) ↦ rw (layer.commits (dispatch frame o c) w h) (dispatch-Change frame o c w h)
    | inr (e, h) ↦ rw (layer.rolls_back (dispatch frame o c) w e h) (same refl)
  ]

  pub data Step (w : World Ledger) : World Ledger → Type 0 where
    called : (o : Origin) (c : Call) → Step w (apply o c w).1
    -- The block number changes, and frame_system drops the events.
    next_block :
        (n : ℕ) → Step w (record w { storage = record w.storage { block_number = n; events = [] } })
    -- Transfers, fees and other pallets change the currency.
    elsewhere :
        (l : Ledger)
        → SparesPools w.ledger l
        → Step w (record w { storage = record w.storage { ledger = l } })

  -- The storage of the pallet before its first call.
  abbrev pub genesis : Ledger → ℕ → Storage Ledger
  genesis l block = record {
    ledger = l;
    block_number = block;
    pools = [];
    next_pool_id = 0;
    pool_owners = [];
    pool_authorizations = [];
    user_spending = [];
    transaction_log = [];
    next_transaction_id = 0;
    events = [];
  }

  pub data Reach : World Ledger → Type 0 where
    start :
        (l : Ledger) (block : ℕ) (lines : List LogLine)
        → Reach (record { storage = genesis l block; lines = lines })
    next : {w w' : World Ledger} → Reach w → Step w w' → Reach w'

  -- A property that the start has, and every step keeps, holds in every reachable state.
  pub Reach-invariant :
      (P : Storage Ledger → Type 0)
      → ((l : Ledger) (block : ℕ) → P (genesis l block))
      → ((s s' : Storage Ledger) → Change frame s s' → P s → P s')
      → ((s : Storage Ledger) (n : ℕ) → P s → P (record s { block_number = n; events = [] }))
      → ((s : Storage Ledger) (l : Ledger)
          → SparesPools s.ledger l
          → P s
          → P (record s { ledger = l }))
      → {w : World Ledger} → Reach w
      → P w.storage
  Reach-invariant P base change block other (start l b lines) = base l b
  Reach-invariant P base change block other (next {w} r (called o c)) =
      change w.storage _ (apply-Change o c w) (Reach-invariant P base change block other r)
  Reach-invariant P base change block other (next {w} r (next_block n)) =
      block w.storage n (Reach-invariant P base change block other r)
  Reach-invariant P base change block other (next {w} r (elsewhere l h)) =
      other w.storage l h (Reach-invariant P base change block other r)

  -- Any number of steps.
  pub data Steps (w : World Ledger) : World Ledger → Type 0 where
    stay : Steps w w
    more : {w' w'' : World Ledger} → Steps w w' → Step w' w'' → Steps w w''

  pub Reach-Steps : {w w' : World Ledger} → Reach w → Steps w w' → Reach w'
  Reach-Steps r stay = r
  Reach-Steps r (more steps step) = next (Reach-Steps r steps) step
