-- ===== src/Gateway/Settlement.antt =====
-- PoolBalanceUpdater and UserNotificationSystem.
use gas_leap.Base.{ℕ, List, Bool, leb, if◌then◌else◌, pure, ◌>>=◌, ◌>>◌, saturating_sub}
use gas_leap.Gateway.{
  ExecutionResult, Gateway, actual_exceeded_reserved, balance_adjustment, full_refund,
  updating_spending, notify_success, notify_failure, notify_timeout, notify_insufficient_funds,
  updating_savings, log,
}

unfoldable pub update_for_actual_consumption : ℕ → ℕ → ℕ → Gateway ℕ
update_for_actual_consumption pool_id reserved_amount actual_amount = do
  difference ←
      (if leb actual_amount reserved_amount
        then pure (saturating_sub reserved_amount actual_amount)
        else (do log (actual_exceeded_reserved pool_id); pure 0))
  log (balance_adjustment pool_id reserved_amount actual_amount difference)
  pure difference

unfoldable pub refund_full_amount : ℕ → ℕ → Gateway (Unit {0})
refund_full_amount pool_id refund_amount = log (full_refund refund_amount pool_id)

unfoldable pub update_user_spending : ℕ → ℕ → ℕ → Bool → Gateway (Unit {0})
update_user_spending pool_id user actual_spent was_refunded =
    log (updating_spending pool_id actual_spent was_refunded)

unfoldable send_success_notification : ℕ → ℕ → ℕ → Gateway (Unit {0})
send_success_notification user transaction_id gas_saved =
    log (notify_success user transaction_id gas_saved)

unfoldable send_failure_notification : ℕ → ℕ → List ℕ → Gateway (Unit {0})
send_failure_notification user transaction_id error = log (notify_failure user transaction_id error)

unfoldable send_timeout_notification : ℕ → ℕ → Gateway (Unit {0})
send_timeout_notification user transaction_id = log (notify_timeout user transaction_id)

unfoldable send_insufficient_funds_notification : ℕ → ℕ → Gateway (Unit {0})
send_insufficient_funds_notification user transaction_id =
    log (notify_insufficient_funds user transaction_id)

unfoldable pub notify_transaction_complete : ℕ → ℕ → ExecutionResult → ℕ → Gateway (Unit {0})
unfolding send_success_notification send_failure_notification send_timeout_notification
    send_insufficient_funds_notification
notify_transaction_complete user transaction_id ExecutionResult.success gas_saved =
    send_success_notification user transaction_id gas_saved
notify_transaction_complete user transaction_id (ExecutionResult.failed error) gas_saved =
    send_failure_notification user transaction_id error
notify_transaction_complete user transaction_id ExecutionResult.timeout gas_saved =
    send_timeout_notification user transaction_id
notify_transaction_complete user transaction_id ExecutionResult.insufficient_funds gas_saved =
    send_insufficient_funds_notification user transaction_id

unfoldable pub update_gas_savings : ℕ → ℕ → Gateway ℕ
update_gas_savings user saved_amount = do
  log (updating_savings user saved_amount)
  pure saved_amount
