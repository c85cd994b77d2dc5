-- ===== src/Tests/Units/Receiving.antt =====
-- `mod receipt_tests` of pallets/sponsorship/src/xcm_gateway.rs. A hash is a number: 32 ones are the
-- number that they are as digits of base 256. The text of the error is any text.
use gas_leap.Base.{ℕ, ◌≡◌, refl, List, [], true, false, ok, is_ok, ◌^◌}
use Prim.Native.Nat.{◌/◌}
use gas_leap.Gateway.{LogLine, ExecutionResult, TransactionReceipt, ReceiptProcessingResult}
use gas_leap.Gateway.Receipt.{process_receipt, validate_receipt, default_hash}
use gas_leap.Gateway.Settlement.{
  update_for_actual_consumption, refund_full_amount, notify_transaction_complete,
  update_gas_savings,
}

abbrev create_test_receipt : (transaction_id : ℕ) → ExecutionResult → ℕ → TransactionReceipt
create_test_receipt transaction_id result gas_used = record {
  transaction_id = transaction_id;
  target_chain = 2006;
  execution_result = result;
  actual_gas_used = gas_used;
  block_hash = 2 ^ 256 / 255;
  block_number = 1;
  events = [];
}

module _ (error_msg : List ℕ) (lines : List LogLine) where
  abbrev TestProcessSuccessfulReceipt : Type 0
  TestProcessSuccessfulReceipt =
      (process_receipt (create_test_receipt 1 ExecutionResult.success 800) lines).0
      ≡ ok ReceiptProcessingResult.processed

  abbrev TestProcessFailedReceipt : Type 0
  TestProcessFailedReceipt =
      (process_receipt (create_test_receipt 1 (ExecutionResult.failed error_msg) 0) lines).0
      ≡ ok ReceiptProcessingResult.processed

  abbrev TestProcessTimeoutReceipt : Type 0
  TestProcessTimeoutReceipt =
      (process_receipt (create_test_receipt 1 ExecutionResult.timeout 0) lines).0
      ≡ ok ReceiptProcessingResult.processed

  abbrev TestInvalidReceipt : Type 0
  TestInvalidReceipt =
      (process_receipt
        (record (create_test_receipt 0 ExecutionResult.success 800) { block_hash = default_hash })
        lines).0
      ≡ ok ReceiptProcessingResult.invalid_receipt

  abbrev TestPoolBalanceUpdate : Type 0
  TestPoolBalanceUpdate = (update_for_actual_consumption 1 1000 800 lines).0 ≡ ok 200

  abbrev TestPoolBalanceUpdateOverspend : Type 0
  TestPoolBalanceUpdateOverspend = (update_for_actual_consumption 1 800 1000 lines).0 ≡ ok 0

  abbrev TestFullRefund : Type 0
  TestFullRefund = is_ok (refund_full_amount 1 1000 lines).0 ≡ true

  abbrev TestUserNotifications : Type 0
  TestUserNotifications =
      is_ok (notify_transaction_complete 1 1 ExecutionResult.success 200 lines).0 ≡ true

  abbrev TestGasSavingsUpdate : Type 0
  TestGasSavingsUpdate = (update_gas_savings 1 200 lines).0 ≡ ok 200

  abbrev TestReceiptValidation : Type 0
  TestReceiptValidation =
      (validate_receipt (create_test_receipt 1 ExecutionResult.success 800) ≡ true)
      × (validate_receipt (create_test_receipt 0 ExecutionResult.success 800) ≡ false)

  receipt_tests :
      TestProcessSuccessfulReceipt × TestProcessFailedReceipt × TestProcessTimeoutReceipt
      × TestInvalidReceipt × TestPoolBalanceUpdate × TestPoolBalanceUpdateOverspend × TestFullRefund
      × TestUserNotifications × TestGasSavingsUpdate × TestReceiptValidation
  unfolding process_receipt validate_receipt update_for_actual_consumption refund_full_amount
      notify_transaction_complete update_gas_savings
  receipt_tests = (refl, refl, refl, refl, refl, refl, refl, refl, refl, (refl, refl))
