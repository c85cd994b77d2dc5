-- ===== src/Gateway/Backoff.antt =====
-- The delays of RetryHandler.
use native.Mathlib.Nat.{pow-suc, pow-le-pow_right}
use gas_leap.Base.{
  ℕ, zero, suc, ◌+◌, ◌*◌, ◌%◌, ◌^◌, ◌-◌, ◌≤◌, ◌≡◌, refl, List, ◌∷◌, true, false, ok, ◌↔◌, arith,
  leb, ltb, if◌then◌else◌, u32_max, Bool-cases, inl, inr, ◌==◌, leb→le,
}
use gas_leap.Gateway.{LogLine, exceeded_max_retries, scheduling_retry}
use gas_leap.Gateway.Retry.{calculate_backoff_delay, retry_transaction, is_ready_for_retry}

backoff_doubles : (k : ℕ) → k ≤ 29 → calculate_backoff_delay k ≡ 5 * 2 ^ k
unfolding calculate_backoff_delay
backoff_doubles k h = let bounded : 2 ^ k ≤ 2 ^ 29 = pow-le-pow_right (omega arith) h in omega arith

pow_wraps : (j k : ℕ) → k ≡ 32 + j → 2 ^ k % 2 ^ 32 ≡ 0
pow_wraps zero k e = rw e
pow_wraps (suc j) k e =
    let step : k ≡ suc (32 + j) = omega arith in
    rw step (omega (arith, pow-suc 2 (32 + j), pow_wraps j (32 + j) refl))

backoff_wraps : (k : ℕ) → 32 ≤ k → calculate_backoff_delay k ≡ 0
unfolding calculate_backoff_delay
backoff_wraps k h = omega (arith, pow_wraps (k - 32) k (omega arith))

backoff_capped : (k : ℕ) → 30 ≤ k → k ≤ 31 → calculate_backoff_delay k ≡ u32_max
unfolding calculate_backoff_delay
backoff_capped k low high = elim (Bool-cases (k == 30)) [
  | inl e ↦ let at30 : k ≡ 30 = ground arith in rw at30
  | inr e ↦ let at31 : k ≡ 31 = ground arith in rw at31
]

-- The delay as a table of the retry count.
abbrev pub delay_of : ℕ → ℕ
delay_of k = if leb k 29 then 5 * 2 ^ k else if leb k 31 then u32_max else 0

-- The delay doubles with each retry, from 5 blocks, up to the count 29; it is the largest u32 at
-- the counts 30 and 31; from 32 on the power wraps to 0, and the delay is 0.
pub backoff_lem : (k : ℕ) → calculate_backoff_delay k ≡ delay_of k
backoff_lem k = elim (Bool-cases (leb k 29)) [
  | inl low ↦ rw low (backoff_doubles k (leb→le k 29 low))
  | inr high ↦ elim (Bool-cases (leb k 31)) [
    | inl low ↦ rw (high, low) (backoff_capped k (ground arith) (leb→le k 31 low))
    | inr top ↦ rw (high, top) (backoff_wraps k (ground arith))
  ]
]

-- A retry is scheduled for the counts 0, 1 and 2, as the next attempt, 5, 10 or 20 blocks later;
-- from 3 on it is refused. Both are logged, and neither is an error.
retry_lem :
    (id count : ℕ) (lines : List LogLine)
    → retry_transaction id count lines ≡ (
        if ltb count 3
        then (ok true, scheduling_retry (count + 1) id (5 * 2 ^ count) ∷ lines)
        else (ok false, exceeded_max_retries id 3 ∷ lines))
unfolding retry_transaction
retry_lem id zero lines = refl
retry_lem id (suc zero) lines = refl
retry_lem id (suc (suc zero)) lines = refl
retry_lem id (suc (suc (suc count))) lines = ground arith

elapsed :
    (delay last current : ℕ)
    → last ≤ current
    → (leb delay (current - last) ≡ true) ↔ (last + delay ≤ current)
elapsed delay last current order = ground arith

-- A transaction whose last retry is not in the future is ready again exactly when the delay of its
-- count has passed; with a count of 32 or more that is at once.
ready_iff :
    (last retry_count current : ℕ)
    → last ≤ current
    → (is_ready_for_retry last retry_count current ≡ true) ↔ (last + delay_of retry_count ≤ current)
unfolding is_ready_for_retry
ready_iff last retry_count current order =
    rw (backoff_lem retry_count) (elapsed (delay_of retry_count) last current order)
