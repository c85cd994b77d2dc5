-- ===== src/Pallet/Receipts.antt =====
-- `process_receipt` of the pallet: what it accepts, and that it settles nothing.
use gas_leap.Base.{
  ℕ, ◌≡◌, List, ◌∷◌, ◌++◌, true, none, some, Result, ok, err, arith, nat_eq, if◌then◌else◌,
}
use gas_leap.Base.StorageMap.{get, get-insert_self}
use gas_leap.Types.{PoolInfo, DispatchError, module_error, invalid_configuration, bad_origin}
use gas_leap.Gateway.{TransactionReceipt, receipt_processed, updating_status, marking_processed}
use gas_leap.Gateway.Receipt.{final_status}
use gas_leap.Gateway.Settling.{is_blank, result_lines, process_receipt_lem}
use gas_leap.Gateway.Delivery.{is_sendable}
use gas_leap.Frame.{Frame}
use gas_leap.Pallet.{World, sponsor_transaction, process_receipt}
use gas_leap.Pallet.Change.{new_record}
use gas_leap.Pallet.Sponsoring.{IsPayable, sponsor_effect}

module _ {Ledger Origin : Type 0} (frame : Frame Ledger Origin) where
  -- The outcome for an origin and a receipt.
  abbrev pub receipt_outcome :
      Origin → TransactionReceipt → World Ledger → Result DispatchError (Unit {0}) × World Ledger
  receipt_outcome o r w = elim (frame.ensure_signed o) [
    | none ↦ (err bad_origin, w)
    | some who ↦ if is_blank r then (err (module_error invalid_configuration), w) else (
      ok tt,
      record w {
        lines =
            receipt_processed
            ∷ updating_status r.transaction_id (final_status r.execution_result)
            ∷ marking_processed r.transaction_id
            ∷ (result_lines r.execution_result r ++ w.lines);
      },
    )
  ]

  -- Any signed origin may hand in a receipt, and without a signer it is `BadOrigin`. A blank one is
  -- refused with `InvalidConfiguration` and changes nothing; any other is accepted, whether its
  -- transaction exists or was settled before, and adds log lines. The storage, so the pool and the
  -- record, stays as it is in every case.
  pub receipt_lem :
      (o : Origin) (r : TransactionReceipt) (w : World Ledger)
      → (process_receipt frame o r w ≡ receipt_outcome o r w)
        × ((process_receipt frame o r w).1.storage ≡ w.storage)
  unfolding process_receipt
  receipt_lem o r w =
      (ground (arith, process_receipt_lem r w.lines), ground (arith, process_receipt_lem r w.lines))

  -- The transaction that a fresh counter gives the id 0 is logged as pending under the id 0, and in
  -- no later state a signed receipt for this id is accepted: it is refused and changes nothing.
  pub first_transaction_unsettled :
      (o : Origin) (pool_id target : ℕ) (call_data : List ℕ) (w : World Ledger) (who : ℕ)
      (info : PoolInfo) (fee : ℕ) (o' : Origin) (who' : ℕ) (r : TransactionReceipt)
      (later : World Ledger)
      → w.next_transaction_id ≡ 0
      → IsPayable frame o pool_id target call_data w who info fee
      → is_sendable call_data ≡ true
      → frame.ensure_signed o' ≡ some who'
      → r.transaction_id ≡ 0
      → (get 0 (sponsor_transaction frame o pool_id target call_data w).1.transaction_log
          ≡ some (new_record frame w.storage pool_id who target call_data fee))
        × (process_receipt frame o' r later ≡ (err (module_error invalid_configuration), later))
  first_transaction_unsettled o pool_id target call_data w who info fee o' who' r later fresh
        payable sendable s e =
      (
        ground (
          arith,
          sponsor_effect frame o pool_id target call_data w who info fee payable sendable,
          get-insert_self w.next_transaction_id
              (new_record frame w.storage pool_id who target call_data fee) w.transaction_log,
        ),
        ground (arith, (receipt_lem o' r later).0),
      )
