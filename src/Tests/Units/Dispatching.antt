-- ===== src/Tests/Units/Dispatching.antt =====
-- `mod dispatch_tests` of pallets/sponsorship/src/xcm_gateway.rs, with any hash and in any block.
use gas_leap.Base.{ℕ, ◌≡◌, refl, List, true, false, ok, err, is_ok}
use gas_leap.Gateway.{LogLine, message_format_error, unsupported_destination, delivery_timeout}
use gas_leap.Gateway.Dispatch.{
  dispatch_message, estimate_delivery_time, add_pending_transaction, mark_dispatched,
}
use gas_leap.Gateway.Retry.{retry_transaction, calculate_backoff_delay}
use gas_leap.Gateway.Send.{
  send_cross_chain_transaction, handle_dispatch_failure, process_maintenance,
}
use gas_leap.Tests.Units.Messages.{call_data, message_to}

abbrev TestEstimateDeliveryTime : Type 0
TestEstimateDeliveryTime =
    (estimate_delivery_time 2000 ≡ ok 2)
    × (estimate_delivery_time 2006 ≡ ok 3)
    × (estimate_delivery_time 9999 ≡ err unsupported_destination)

abbrev TestBackoffCalculation : Type 0
TestBackoffCalculation =
    (calculate_backoff_delay 0 ≡ 5)
    × (calculate_backoff_delay 1 ≡ 10)
    × (calculate_backoff_delay 2 ≡ 20)
    × (calculate_backoff_delay 3 ≡ 40)

-- The calls of a test follow one another on the log.
module _ (hash : List ℕ → ℕ) (block : ℕ) (lines : List LogLine) where
  abbrev TestDispatchMessageSuccess : Type 0
  TestDispatchMessageSuccess = is_ok (dispatch_message (message_to 2006 call_data) lines).0 ≡ true

  abbrev TestDispatchMessageInvalidTarget : Type 0
  TestDispatchMessageInvalidTarget =
      (dispatch_message (message_to 9999 call_data) lines).0 ≡ err message_format_error

  abbrev TestTransactionTracking : Type 0
  TestTransactionTracking =
      let (result, lines') = add_pending_transaction hash block 1 1 1 2006 call_data 1000 lines in
      (is_ok result ≡ true) × (is_ok (mark_dispatched 1 lines').0 ≡ true)

  abbrev TestRetryLogic : Type 0
  TestRetryLogic =
      let (retry_result, lines') = retry_transaction 1 0 lines in
      (retry_result ≡ ok true) × ((retry_transaction 1 5 lines').0 ≡ ok false)

  abbrev TestFullCrossChainFlow : Type 0
  TestFullCrossChainFlow =
      is_ok (send_cross_chain_transaction hash block 1 1 2006 call_data 1 lines).0 ≡ true

  abbrev TestDispatchFailureHandling : Type 0
  TestDispatchFailureHandling = is_ok (handle_dispatch_failure 1 delivery_timeout lines).0 ≡ true

  abbrev TestMaintenanceProcessing : Type 0
  TestMaintenanceProcessing = is_ok (process_maintenance lines).0 ≡ true

  dispatch_tests :
      TestDispatchMessageSuccess × TestDispatchMessageInvalidTarget × TestEstimateDeliveryTime
      × TestTransactionTracking × TestRetryLogic × TestBackoffCalculation × TestFullCrossChainFlow
      × TestDispatchFailureHandling × TestMaintenanceProcessing
  unfolding dispatch_message estimate_delivery_time add_pending_transaction mark_dispatched
      retry_transaction calculate_backoff_delay send_cross_chain_transaction handle_dispatch_failure
      process_maintenance
  dispatch_tests = (
    refl,
    refl,
    (refl, refl, refl),
    (refl, refl),
    (refl, refl),
    (refl, refl, refl, refl),
    refl,
    refl,
    refl,
  )
