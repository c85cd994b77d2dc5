-- ===== src/Gateway/Settling.antt =====
-- What ReceiptProcessor and PoolBalanceUpdater answer and log.
use gas_leap.Base.{
  ℕ, ◌+◌, ◌-◌, ◌≡◌, refl, List, [], ◌∷◌, ◌++◌, Bool, ok, arith, leb, ◌==◌, ◌||◌, if◌then◌else◌,
}
use Prim.Native.Nat.{min}
use gas_leap.Gateway.{
  ExecutionResult, TransactionReceipt, ReceiptProcessingResult, LogLine, execution_succeeded,
  execution_failed_with, timed_out, short_of_funds, updating_pool_balance, refunding,
  marking_processed, success_notification, failure_notification, updating_status, scheduling_retry,
  actual_exceeded_reserved, balance_adjustment, full_refund, updating_spending, updating_savings,
  notify_success, notify_failure, notify_timeout, notify_insufficient_funds,
}
use gas_leap.Gateway.Receipt.{process_receipt, final_status, default_hash}
use gas_leap.Gateway.Settlement.{
  update_for_actual_consumption, refund_full_amount, update_user_spending,
  notify_transaction_complete, update_gas_savings,
}

-- A receipt with a transaction id, a chain or a block hash of zero.
abbrev pub is_blank : TransactionReceipt → Bool
is_blank r = r.transaction_id == 0 || r.target_chain == 0 || r.block_hash == default_hash

-- What is logged for an execution result, newest first.
abbrev pub result_lines : ExecutionResult → TransactionReceipt → List LogLine
result_lines ExecutionResult.success r =
    success_notification r.transaction_id
    ∷ updating_pool_balance r.transaction_id r.actual_gas_used
    ∷ execution_succeeded r.transaction_id r.target_chain r.actual_gas_used
    ∷ []
result_lines (ExecutionResult.failed message) r =
    failure_notification r.transaction_id
    ∷ refunding r.transaction_id
    ∷ execution_failed_with r.transaction_id r.target_chain r.execution_result
    ∷ []
result_lines ExecutionResult.timeout r =
    scheduling_retry 2 r.transaction_id 10
    ∷ refunding r.transaction_id
    ∷ timed_out r.transaction_id r.target_chain
    ∷ []
result_lines ExecutionResult.insufficient_funds r =
    refunding r.transaction_id ∷ short_of_funds r.transaction_id r.target_chain ∷ []

-- Processing a receipt never fails and never answers that a receipt was processed before. A blank
-- receipt is invalid and logs nothing; any other is processed: the lines of its result, the mark,
-- and the status `executed` for a success, `failed` for everything else.
pub process_receipt_lem :
    (r : TransactionReceipt) (lines : List LogLine)
    → process_receipt r lines ≡ (
        if is_blank r then (ok ReceiptProcessingResult.invalid_receipt, lines) else (
          ok ReceiptProcessingResult.processed,
          updating_status r.transaction_id (final_status r.execution_result)
              ∷ marking_processed r.transaction_id
              ∷ (result_lines r.execution_result r ++ lines),
        ))
unfolding process_receipt
process_receipt_lem r lines = ground arith

-- The refund is what was reserved and not used: refund and consumption, the latter up to the
-- reserve, add up to the reserve. An overrun is logged and refunds nothing.
consumption_lem :
    (pool_id reserved actual : ℕ) (lines : List LogLine)
    → (refund : ℕ) × (refund + min actual reserved ≡ reserved)
      × (update_for_actual_consumption pool_id reserved actual lines ≡ (
        ok refund,
        balance_adjustment pool_id reserved actual refund
            ∷ (if leb actual reserved then lines else actual_exceeded_reserved pool_id ∷ lines),
      ))
unfolding update_for_actual_consumption
consumption_lem pool_id reserved actual lines =
    (reserved - min actual reserved, omega arith, ground arith)

-- The notification of an execution result: only a success tells what gas was saved.
abbrev notice : ℕ → ℕ → ExecutionResult → ℕ → LogLine
notice user id ExecutionResult.success amount = notify_success user id amount
notice user id (ExecutionResult.failed error) amount = notify_failure user id error
notice user id ExecutionResult.timeout amount = notify_timeout user id
notice user id ExecutionResult.insufficient_funds amount = notify_insufficient_funds user id

-- The refund in full, the spending update, the notification and the savings update succeed, and
-- each writes one log line and nothing more; the last gives back the amount.
pub reports_lem :
    (pool_id user id amount : ℕ) (refunded : Bool) (result : ExecutionResult) (lines : List LogLine)
    → (refund_full_amount pool_id amount lines ≡ (ok tt, full_refund amount pool_id ∷ lines))
      × (update_user_spending pool_id user amount refunded lines
          ≡ (ok tt, updating_spending pool_id amount refunded ∷ lines))
      × (notify_transaction_complete user id result amount lines
          ≡ (ok tt, notice user id result amount ∷ lines))
      × (update_gas_savings user amount lines ≡ (ok amount, updating_savings user amount ∷ lines))
unfolding refund_full_amount update_user_spending notify_transaction_complete update_gas_savings
reports_lem pool_id user id amount refunded result lines = (refl, refl, ground arith, refl)
