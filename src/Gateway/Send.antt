-- ===== src/Gateway/Send.antt =====
-- XcmGateway.
use gas_leap.Base.{ℕ, List, Bool, true, false, ltb, if◌then◌else◌, pure, lift, ◌>>=◌, ◌>>◌}
use gas_leap.Gateway.{
  XcmGatewayError, message_format_error, unsupported_destination, delivery_timeout,
  execution_failed, Gateway, dispatched, dispatch_failed, processed_candidates, log,
}
use gas_leap.Gateway.Message.{format_for_parachain}
use gas_leap.Gateway.Fee.{estimate_fee}
use gas_leap.Gateway.Dispatch.{
  add_pending_transaction, dispatch_message, mark_dispatched, mark_failed,
}
use gas_leap.Gateway.Retry.{retry_transaction, process_retry_queue}

-- `hash` is `T::Hashing::hash`, and `current_block` the block number that the tracker reads.
unfoldable pub send_cross_chain_transaction :
    (List ℕ → ℕ) → ℕ → ℕ → ℕ → ℕ → List ℕ → ℕ → Gateway (Unit {0})
unfolding estimate_fee format_for_parachain add_pending_transaction dispatch_message mark_dispatched
send_cross_chain_transaction hash current_block pool_id user target_chain call_data transaction_id =
    do
      estimated_fee ← lift (estimate_fee target_chain call_data)
      message ←
          lift (format_for_parachain target_chain call_data estimated_fee pool_id transaction_id)
      add_pending_transaction hash current_block transaction_id pool_id user target_chain call_data
          estimated_fee
      dispatch_message message
      mark_dispatched transaction_id
      log (dispatched transaction_id target_chain)

-- The `match` on the error in `handle_dispatch_failure`.
abbrev pub should_retry : XcmGatewayError → Bool
should_retry delivery_timeout = true
should_retry execution_failed = true
should_retry unsupported_destination = false
should_retry message_format_error = false
should_retry _ = true

unfoldable pub handle_dispatch_failure : ℕ → XcmGatewayError → Gateway (Unit {0})
unfolding retry_transaction mark_failed
handle_dispatch_failure transaction_id error = do
  log (dispatch_failed transaction_id error)
  if should_retry error
      then (do retry_transaction transaction_id 0; pure tt)
      else mark_failed transaction_id

unfoldable pub process_maintenance : Gateway (Unit {0})
unfolding process_retry_queue
process_maintenance = do
  processed ← process_retry_queue
  if ltb 0 processed then log (processed_candidates processed) else pure tt
