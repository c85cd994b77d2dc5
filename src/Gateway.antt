-- ===== src/Gateway.antt =====
-- pallets/sponsorship/src/xcm_gateway.rs: the messages, receipts and errors of the XCM gateway,
-- and the calls that it makes. The gateway keeps no storage of its own: what it does, beyond its
-- result, is to write log lines, so a call takes and returns the lines, newest first. A line is
-- the `log::…!` call with its arguments.
pub mod Message
pub mod Tables
pub mod Formats
pub mod Delivery
pub mod Backoff
pub mod Settling
pub mod Fee
pub mod Dispatch
pub mod Retry
pub mod Send
pub mod Receipt
pub mod Settlement
use gas_leap.Base.{ℕ, List, ◌∷◌, Bool, Action, ok}
use gas_leap.Types.{TransactionStatus}

pub record DemoXcmMessage : Type 0 where
  pub target : ℕ
  pub call : List ℕ
  pub max_fee : ℕ
  pub sponsor : ℕ
  pub transaction_id : ℕ

pub data ValidationResult : Type 0 where
  valid invalid_target invalid_call_data excessive_fee unsupported_version : ValidationResult

pub record PendingTransaction : Type 0 where
  pub transaction_id : ℕ
  pub pool_id : ℕ
  pub user : ℕ
  pub target_chain : ℕ
  pub call_hash : ℕ
  pub reserved_fee : ℕ
  pub retry_count : ℕ
  pub created_at : ℕ
  pub last_retry_at : ℕ

pub data XcmGatewayError : Type 0 where
  message_format_error unsupported_destination fee_estimation_failed : XcmGatewayError
  delivery_timeout execution_failed receipt_processing_error : XcmGatewayError

pub data ExecutionResult : Type 0 where
  success : ExecutionResult
  failed : List ℕ → ExecutionResult
  timeout insufficient_funds : ExecutionResult

pub record TransactionReceipt : Type 0 where
  pub transaction_id : ℕ
  pub target_chain : ℕ
  pub execution_result : ExecutionResult
  pub actual_gas_used : ℕ
  pub block_hash : ℕ
  pub block_number : ℕ
  pub events : List ℕ

pub data ReceiptProcessingResult : Type 0 where
  processed already_processed invalid_receipt pool_update_failed : ReceiptProcessingResult

pub data LogLine : Type 0 where
  -- XcmDispatcher, TransactionTracker, RetryHandler, XcmGateway
  dispatching : (target transaction_id : ℕ) → LogLine
  updating_status : ℕ → TransactionStatus → LogLine
  exceeded_max_retries : (transaction_id max_retries : ℕ) → LogLine
  scheduling_retry : (attempt transaction_id delay : ℕ) → LogLine
  processing_retry : ℕ → LogLine
  dispatched : (transaction_id target_chain : ℕ) → LogLine
  dispatch_failed : ℕ → XcmGatewayError → LogLine
  processed_candidates : ℕ → LogLine
  -- ReceiptProcessor
  execution_succeeded : (transaction_id target_chain gas_used : ℕ) → LogLine
  execution_failed_with : ℕ → ℕ → ExecutionResult → LogLine
  timed_out : (transaction_id target_chain : ℕ) → LogLine
  short_of_funds : (transaction_id target_chain : ℕ) → LogLine
  updating_pool_balance : (transaction_id gas_used : ℕ) → LogLine
  refunding : ℕ → LogLine
  marking_processed : ℕ → LogLine
  success_notification failure_notification : ℕ → LogLine
  -- PoolBalanceUpdater
  actual_exceeded_reserved : ℕ → LogLine
  balance_adjustment : (pool_id reserved actual refund : ℕ) → LogLine
  full_refund : (amount pool_id : ℕ) → LogLine
  updating_spending : ℕ → ℕ → Bool → LogLine
  -- UserNotificationSystem
  notify_success : (user transaction_id gas_saved : ℕ) → LogLine
  notify_failure : ℕ → ℕ → List ℕ → LogLine
  notify_timeout notify_insufficient_funds : (user transaction_id : ℕ) → LogLine
  updating_savings : (user amount : ℕ) → LogLine
  -- Pallet::process_receipt
  receipt_processed receipt_already_processed : LogLine

abbrev pub Gateway : Type 0 → Type 0
Gateway A = Action (List LogLine) XcmGatewayError A

abbrev pub log : LogLine → Gateway (Unit {0})
log line lines = (ok tt, line ∷ lines)
