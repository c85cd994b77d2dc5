-- ===== src/Tests/Gateways.antt =====
-- The theorems on the gateway at concrete inputs.
use gas_leap.Base.{◌≡◌, refl}
use gas_leap.Gateway.Retry.{calculate_backoff_delay}
use gas_leap.Gateway.Backoff.{backoff_lem}

-- test_backoff_calculation, and a count past the width of the word
backoff_lem_example : calculate_backoff_delay 3 ≡ 40
backoff_lem_example = backoff_lem 3

wrapped_delay : calculate_backoff_delay 32 ≡ 0
unfolding calculate_backoff_delay
wrapped_delay = refl
