-- ===== src/Gateway/Dispatch.antt =====
-- XcmDispatcher and TransactionTracker.
use gas_leap.Base.{
  ℕ, List, [], Bool, true, false, not, Result, ok, err, ◌==◌, if◌then◌else◌, pure, raise, ◌>>◌,
}
use gas_leap.Types.{TransactionStatus}
use gas_leap.Gateway.{
  DemoXcmMessage, ValidationResult, XcmGatewayError, message_format_error, unsupported_destination,
  PendingTransaction, Gateway, dispatching, updating_status, log,
}
use gas_leap.Gateway.Message.{validate_message}

-- The derived `==` with `ValidationResult::Valid`.
abbrev pub is_valid : ValidationResult → Bool
is_valid ValidationResult.valid = true
is_valid _ = false

unfoldable pub simulate_xcm_dispatch : DemoXcmMessage → Gateway (Unit {0})
simulate_xcm_dispatch message = do
  log (dispatching message.target message.transaction_id)
  if message.target == 9999 then raise unsupported_destination else pure tt

unfoldable pub dispatch_message : DemoXcmMessage → Gateway (Unit {0})
unfolding validate_message simulate_xcm_dispatch
dispatch_message message =
    if not (is_valid (validate_message message))
    then raise message_format_error
    else simulate_xcm_dispatch message

-- In blocks.
unfoldable pub estimate_delivery_time : ℕ → Result XcmGatewayError ℕ
estimate_delivery_time target_chain =
    if target_chain == 2000
    then ok 2
    else if target_chain == 2006
    then ok 3
    else if target_chain == 2012
    then ok 2
    else if target_chain == 2030
    then ok 3
    else err unsupported_destination

unfoldable pub store_pending_transaction : PendingTransaction → Gateway (Unit {0})
store_pending_transaction pending_tx = pure tt

-- `hash` is `T::Hashing::hash`, and `current_block` the block number that the source reads.
unfoldable pub add_pending_transaction :
    (List ℕ → ℕ) → ℕ → ℕ → ℕ → ℕ → ℕ → List ℕ → ℕ → Gateway (Unit {0})
unfolding store_pending_transaction
add_pending_transaction hash current_block transaction_id pool_id user target_chain call_data
      reserved_fee =
    let call_hash = hash call_data in
    store_pending_transaction (record {
      transaction_id = transaction_id;
      pool_id = pool_id;
      user = user;
      target_chain = target_chain;
      call_hash = call_hash;
      reserved_fee = reserved_fee;
      retry_count = 0;
      created_at = current_block;
      last_retry_at = current_block;
    })

unfoldable pub update_transaction_status : ℕ → TransactionStatus → Gateway (Unit {0})
update_transaction_status transaction_id new_status =
    log (updating_status transaction_id new_status)

unfoldable pub get_retry_candidates : ℕ → List ℕ
get_retry_candidates max_age_blocks = []

unfoldable pub mark_dispatched : ℕ → Gateway (Unit {0})
unfolding update_transaction_status
mark_dispatched transaction_id =
    update_transaction_status transaction_id TransactionStatus.dispatched

unfoldable pub mark_executed : ℕ → Gateway (Unit {0})
unfolding update_transaction_status
mark_executed transaction_id = update_transaction_status transaction_id TransactionStatus.executed

unfoldable pub mark_failed : ℕ → Gateway (Unit {0})
unfolding update_transaction_status
mark_failed transaction_id = update_transaction_status transaction_id TransactionStatus.failed
