-- ===== src/Gateway/Delivery.antt =====
-- What `send_cross_chain_transaction`, `handle_dispatch_failure` and `process_maintenance` do, as
-- functions of their arguments: the result, and the log lines that they add.
use gas_leap.Base.{
  ℕ, ◌+◌, ◌≤◌, ◌≡◌, refl, List, [], ◌∷◌, Bool, not, ◌&&◌, Result, ok, err, arith, leb,
  if◌then◌else◌, length, u32_max,
}
use Prim.Native.Nat.{min}
use gas_leap.Types.{TransactionStatus}
use gas_leap.Gateway.{
  XcmGatewayError, message_format_error, unsupported_destination, LogLine, dispatching,
  updating_status, dispatched, scheduling_retry, dispatch_failed, processing_retry,
}
use gas_leap.Gateway.Message.{is_supported_parachain, is_empty, max_call_size}
use gas_leap.Gateway.Retry.{process_candidates}
use gas_leap.Gateway.Send.{
  send_cross_chain_transaction, handle_dispatch_failure, process_maintenance, should_retry,
}

-- A call that fits a message: not empty, and within the bound.
abbrev pub is_sendable : List ℕ → Bool
is_sendable call_data = not (is_empty call_data) && leb (length call_data) max_call_size

-- The outcome of sending, from the two conditions that decide it.
abbrev pub send_outcome :
    (target transaction_id : ℕ)
    → List ℕ
    → List LogLine
    → Result XcmGatewayError (Unit {0}) × List LogLine
send_outcome target transaction_id call_data lines =
    if not (is_supported_parachain target)
    then (err unsupported_destination, lines)
    else if is_sendable call_data
    then (
      ok tt,
      dispatched transaction_id target
          ∷ updating_status transaction_id TransactionStatus.dispatched
          ∷ dispatching target transaction_id
          ∷ lines,
    )
    else (err message_format_error, lines)

-- Sending succeeds exactly for a supported parachain and call data of 1 to 1024 bytes. Then it logs
-- the dispatch, the new status and the success, in this order; else it logs nothing, and the error
-- tells an unsupported parachain from call data that is empty or too long.
pub send_lem :
    (hash : List ℕ → ℕ) (block pool_id user target : ℕ) (call_data : List ℕ) (id : ℕ)
    (lines : List LogLine)
    → send_cross_chain_transaction hash block pool_id user target call_data id lines
      ≡ send_outcome target id call_data lines
unfolding send_cross_chain_transaction is_supported_parachain
send_lem hash block pool_id user target [] id lines = ground arith
send_lem hash block pool_id user target (x ∷ xs) id lines = ground arith

-- A failed dispatch is always handled. An unsupported destination or a malformed message marks the
-- transaction failed; any other error schedules the first retry, 5 blocks later.
handle_dispatch_failure_lem :
    (id : ℕ) (error : XcmGatewayError) (lines : List LogLine)
    → handle_dispatch_failure id error lines ≡ (
      ok tt,
      (if should_retry error
            then scheduling_retry 1 id 5
            else updating_status id TransactionStatus.failed)
          ∷ dispatch_failed id error
          ∷ lines,
    )
unfolding handle_dispatch_failure
handle_dispatch_failure_lem id error lines = ground arith

-- The line of each candidate, newest first, on top of the lines before.
abbrev pub candidate_lines : List ℕ → List LogLine → List LogLine
candidate_lines [] lines = lines
candidate_lines (id ∷ rest) lines = candidate_lines rest (processing_retry id ∷ lines)

-- The loop over retry candidates counts every candidate, up to the largest u32, and logs each.
process_candidates_lem :
    (ids : List ℕ) (count : ℕ) (lines : List LogLine)
    → count ≤ u32_max
    → process_candidates ids count lines
      ≡ (ok (min (count + length ids) u32_max), candidate_lines ids lines)
unfolding process_candidates
process_candidates_lem [] count lines h = ground arith
process_candidates_lem (id ∷ ids) count lines h =
    ground
      (arith, process_candidates_lem ids (min (count + 1) u32_max) (processing_retry id ∷ lines))

-- Maintenance does nothing: it never finds a candidate for a retry.
pub process_maintenance_idle : (lines : List LogLine) → process_maintenance lines ≡ (ok tt, lines)
unfolding process_maintenance
process_maintenance_idle lines = refl
