-- ===== src/Pallet/Abstract/Simulation.antt =====
-- Whole runs of the pallet of pallets/sponsorship/src/lib.rs against runs in the abstract.
use mathlib.Core.Path.{subst}
use gas_leap.Base.{ℕ, ◌≡◌, ap, Result-cases, inl, inr, List, [], nat_eq, pair_eq, Result, refl, ◌∷◌}
use gas_leap.Types.{type_eq, DispatchError}
use gas_leap.Frame.{Frame}
use gas_leap.Pallet.{World}
use gas_leap.Pallet.History.{Call, dispatch}
use gas_leap.Pallet.Abstract.{View, view, verdict}
use gas_leap.Pallet.History.{StorageLayer, apply}
use gas_leap.Pallet.Abstract.{perform, settled}
use gas_leap.Pallet.Abstract.Agreement.{
  Agrees, create_pool-Agrees, fund_pool-Agrees, update_pool_config-Agrees,
  add_authorization_rule-Agrees, remove_authorization_rule-Agrees, process_receipt-Agrees,
}
use gas_leap.Pallet.Abstract.Sponsored.{sponsor_transaction-Agrees}

module _ {Ledger Origin : Type 0} (frame : Frame Ledger Origin) (o : Origin)
    (w : World Ledger) where
  dispatch-Agrees : (c : Call) → Agrees (dispatch frame o c w) (verdict frame o c (view w.storage))
  dispatch-Agrees (Call.create_pool deposit config) = create_pool-Agrees frame o w deposit config
  dispatch-Agrees (Call.fund_pool p amount) = fund_pool-Agrees frame o w p amount
  dispatch-Agrees (Call.update_pool_config p config) = update_pool_config-Agrees frame o w p config
  dispatch-Agrees (Call.add_authorization_rule p rule) =
      add_authorization_rule-Agrees frame o w p rule
  dispatch-Agrees (Call.remove_authorization_rule p t) =
      remove_authorization_rule-Agrees frame o w p t
  dispatch-Agrees (Call.sponsor_transaction p target call_data) =
      sponsor_transaction-Agrees frame o w p target call_data
  dispatch-Agrees (Call.process_receipt r) = process_receipt-Agrees frame o w r

-- What a chain goes through: a call, a new block, or a change of the currency by others.
pub data Input (Ledger Origin : Type 0) : Type 0 where
  call : Origin → Call → Input Ledger Origin
  new_block : ℕ → Input Ledger Origin
  currency : Ledger → Input Ledger Origin

module _ {Ledger Origin : Type 0} (frame : Frame Ledger Origin) where
  -- A run in the abstract: the results of the calls, in their order, and the last view.
  abbrev pub play :
      List (Input Ledger Origin)
      → View Ledger
      → List (Result DispatchError (Unit {0})) × View Ledger
  play [] v = ([], v)
  play (call o c ∷ inputs) v =
      let (r, v') = perform frame o c v in let (rs, v'') = play inputs v' in (r ∷ rs, v'')
  play (new_block n ∷ inputs) v = play inputs (record v { block_number = n; events = [] })
  play (currency l ∷ inputs) v = play inputs (record v { ledger = l })

module _ {Ledger Origin : Type 0} (frame : Frame Ledger Origin) (layer : StorageLayer Ledger) where
  -- The same for the pallet under the storage layer.
  abbrev pub run :
      List (Input Ledger Origin)
      → World Ledger
      → List (Result DispatchError (Unit {0})) × World Ledger
  run [] w = ([], w)
  run (call o c ∷ inputs) w =
      let (r, w') = apply frame layer o c w in let (rs, w'') = run inputs w' in (r ∷ rs, w'')
  run (new_block n ∷ inputs) w =
      run inputs (record w { storage = record w.storage { block_number = n; events = [] } })
  run (currency l ∷ inputs) w = run inputs (record w { storage = record w.storage { ledger = l } })

  pub apply-perform :
      (o : Origin) (c : Call) (w : World Ledger)
      → perform frame o c (view w.storage)
        ≡ ((apply frame layer o c w).0, view (apply frame layer o c w).1.storage)
  apply-perform o c w = elim (Result-cases (verdict frame o c (view w.storage))) [
    | inl (v, h) ↦
        let (done, written) =
          subst (Agrees (dispatch frame o c w)) h (dispatch-Agrees frame o w c) in
        rw (ap (settled (view w.storage)) h, layer.commits (dispatch frame o c) w done, written)
          refl
    | inr (e, h) ↦
        let failed = subst (Agrees (dispatch frame o c w)) h (dispatch-Agrees frame o w c) in
        rw (ap (settled (view w.storage)) h, layer.rolls_back (dispatch frame o c) w e failed) refl
  ]

  -- Through the storage layer the pallet refines its abstract: whatever calls, new blocks and
  -- changes of the currency a chain goes through, every call gives the result that the abstract
  -- gives, and the maps, counters, events and currency that the run ends with, looked at as functions,
  -- are those that the abstract ends with. The abstract tests the conditions of a call first, then
  -- writes all at once; it knows neither the log lines nor the order of a map's entries.
  pub abstract_run :
      (inputs : List (Input Ledger Origin)) (w : World Ledger)
      → play frame inputs (view w.storage) ≡ ((run inputs w).0, view (run inputs w).1.storage)
  abstract_run [] w = refl
  abstract_run (call o c ∷ inputs) w =
      rw (apply-perform o c w, abstract_run inputs (apply frame layer o c w).1) refl
  abstract_run (new_block n ∷ inputs) w =
      abstract_run inputs
        (record w { storage = record w.storage { block_number = n; events = [] } })
  abstract_run (currency l ∷ inputs) w =
      abstract_run inputs (record w { storage = record w.storage { ledger = l } })
