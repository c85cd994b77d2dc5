-- ===== src/Gateway/Receipt.antt =====
-- ReceiptProcessor.
use gas_leap.Base.{ℕ, Bool, true, false, not, ◌==◌, if◌then◌else◌, pure, ◌>>◌}
use gas_leap.Types.{TransactionStatus}
use gas_leap.Gateway.{
  ExecutionResult, TransactionReceipt, ReceiptProcessingResult, Gateway, execution_succeeded,
  execution_failed_with, timed_out, short_of_funds, updating_pool_balance, refunding,
  marking_processed, success_notification, failure_notification, log,
}
use gas_leap.Gateway.Dispatch.{update_transaction_status}
use gas_leap.Gateway.Retry.{retry_transaction}

unfoldable pub update_pool_balance_for_success : TransactionReceipt → Gateway (Unit {0})
update_pool_balance_for_success receipt =
    log (updating_pool_balance receipt.transaction_id receipt.actual_gas_used)

unfoldable pub refund_unused_gas : TransactionReceipt → Gateway (Unit {0})
refund_unused_gas receipt = log (refunding receipt.transaction_id)

-- `T::Hash::default()` is the hash of zero bytes, the number 0.
abbrev pub default_hash : ℕ
default_hash = 0

unfoldable pub validate_receipt : TransactionReceipt → Bool
validate_receipt receipt =
    if receipt.transaction_id == 0
    then false
    else if receipt.target_chain == 0
    then false
    else if receipt.block_hash == default_hash
    then false
    else true

unfoldable pub is_already_processed : ℕ → Bool
is_already_processed transaction_id = false

unfoldable pub mark_receipt_processed : ℕ → Gateway (Unit {0})
mark_receipt_processed transaction_id = log (marking_processed transaction_id)

unfoldable pub should_retry_timeout : ℕ → Bool
should_retry_timeout transaction_id = true

unfoldable pub emit_transaction_success_notification : TransactionReceipt → Gateway (Unit {0})
emit_transaction_success_notification receipt = log (success_notification receipt.transaction_id)

unfoldable pub emit_transaction_failure_notification : TransactionReceipt → Gateway (Unit {0})
emit_transaction_failure_notification receipt = log (failure_notification receipt.transaction_id)

unfoldable pub handle_successful_execution : TransactionReceipt → Gateway (Unit {0})
unfolding update_pool_balance_for_success emit_transaction_success_notification
handle_successful_execution receipt = do
  log (execution_succeeded receipt.transaction_id receipt.target_chain receipt.actual_gas_used)
  update_pool_balance_for_success receipt
  emit_transaction_success_notification receipt

unfoldable pub handle_failed_execution : TransactionReceipt → Gateway (Unit {0})
unfolding refund_unused_gas emit_transaction_failure_notification
handle_failed_execution receipt = do
  log (execution_failed_with receipt.transaction_id receipt.target_chain receipt.execution_result)
  refund_unused_gas receipt
  emit_transaction_failure_notification receipt

unfoldable pub handle_timeout : TransactionReceipt → Gateway (Unit {0})
unfolding refund_unused_gas should_retry_timeout retry_transaction
handle_timeout receipt = do
  log (timed_out receipt.transaction_id receipt.target_chain)
  refund_unused_gas receipt
  if should_retry_timeout receipt.transaction_id
      then (do retry_transaction receipt.transaction_id 1; pure tt)
      else pure tt

unfoldable pub handle_insufficient_funds : TransactionReceipt → Gateway (Unit {0})
unfolding refund_unused_gas
handle_insufficient_funds receipt = do
  log (short_of_funds receipt.transaction_id receipt.target_chain)
  refund_unused_gas receipt

-- The first `match` on the execution result.
abbrev pub handle_execution : ExecutionResult → TransactionReceipt → Gateway (Unit {0})
handle_execution ExecutionResult.success receipt = handle_successful_execution receipt
handle_execution (ExecutionResult.failed message) receipt = handle_failed_execution receipt
handle_execution ExecutionResult.timeout receipt = handle_timeout receipt
handle_execution ExecutionResult.insufficient_funds receipt = handle_insufficient_funds receipt

-- The second one.
abbrev pub final_status : ExecutionResult → TransactionStatus
final_status ExecutionResult.success = TransactionStatus.executed
final_status _ = TransactionStatus.failed

unfoldable pub process_receipt : TransactionReceipt → Gateway ReceiptProcessingResult
unfolding validate_receipt is_already_processed handle_successful_execution handle_failed_execution
    handle_timeout handle_insufficient_funds mark_receipt_processed update_transaction_status
process_receipt receipt =
    if not (validate_receipt receipt)
    then pure ReceiptProcessingResult.invalid_receipt
    else if is_already_processed receipt.transaction_id
    then pure ReceiptProcessingResult.already_processed
    else (do
      handle_execution receipt.execution_result receipt
      mark_receipt_processed receipt.transaction_id
      update_transaction_status receipt.transaction_id (final_status receipt.execution_result)
      pure ReceiptProcessingResult.processed)
