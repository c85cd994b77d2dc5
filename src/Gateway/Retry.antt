-- ===== src/Gateway/Retry.antt =====
-- RetryHandler. `2u32.pow` wraps, as in a build without overflow checks.
use gas_leap.Base.{
  ℕ, ◌+◌, ◌%◌, ◌^◌, List, [], ◌∷◌, Bool, true, false, leb, if◌then◌else◌, pure, ◌>>◌,
  saturating_add, saturating_sub, saturating_mul, u32_max,
}
use gas_leap.Gateway.{Gateway, exceeded_max_retries, scheduling_retry, processing_retry, log}
use gas_leap.Gateway.Dispatch.{get_retry_candidates}

abbrev pub max_retries : ℕ
max_retries = 3

abbrev pub base_delay_blocks : ℕ
base_delay_blocks = 5

unfoldable pub calculate_backoff_delay : ℕ → ℕ
calculate_backoff_delay retry_count =
    let multiplier = 2 ^ retry_count % 2 ^ 32 in saturating_mul u32_max base_delay_blocks multiplier

unfoldable pub retry_transaction : ℕ → ℕ → Gateway Bool
unfolding calculate_backoff_delay
retry_transaction transaction_id current_retry_count =
    if leb max_retries current_retry_count
    then (do log (exceeded_max_retries transaction_id max_retries); pure false)
    else (do
      let delay_blocks = calculate_backoff_delay current_retry_count
      log (scheduling_retry (current_retry_count + 1) transaction_id delay_blocks)
      pure true)

unfoldable pub is_ready_for_retry : ℕ → ℕ → ℕ → Bool
unfolding calculate_backoff_delay
is_ready_for_retry last_retry_block retry_count current_block =
    let required_delay = calculate_backoff_delay retry_count in
    let blocks_since_retry = saturating_sub current_block last_retry_block in
    leb required_delay blocks_since_retry

-- The loop of `process_retry_queue`, from a count.
unfoldable pub process_candidates : List ℕ → ℕ → Gateway ℕ
process_candidates [] processed_count = pure processed_count
process_candidates (transaction_id ∷ rest) processed_count = do
  log (processing_retry transaction_id)
  process_candidates rest (saturating_add u32_max processed_count 1)

-- The block number that the source reads here is not used.
unfoldable pub process_retry_queue : Gateway ℕ
unfolding get_retry_candidates process_candidates
process_retry_queue = let max_age : ℕ = 100 in process_candidates (get_retry_candidates max_age) 0
