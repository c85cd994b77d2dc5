-- ===== src/Gateway/Fee.antt =====
-- FeeEstimator.
use gas_leap.Base.{
  ℕ, ◌%◌, ◌^◌, List, Result, ok, err, length, ◌==◌, if◌then◌else◌, saturating_add, saturating_mul,
  u128_max,
}
use gas_leap.Gateway.{XcmGatewayError, unsupported_destination}

unfoldable pub get_base_fee : ℕ → Result XcmGatewayError ℕ
get_base_fee target_chain =
    if target_chain == 2000
    then ok 1000
    else if target_chain == 2006
    then ok 800
    else if target_chain == 2012
    then ok 1200
    else if target_chain == 2030
    then ok 900
    else err unsupported_destination

-- `call_data.len() as u32` keeps the low 32 bits.
unfoldable pub calculate_call_fee : List ℕ → ℕ
calculate_call_fee call_data = saturating_mul u128_max (length call_data % 2 ^ 32) 2

unfoldable pub estimate_fee : ℕ → List ℕ → Result XcmGatewayError ℕ
unfolding get_base_fee calculate_call_fee
estimate_fee target_chain call_data = elim (get_base_fee target_chain) [
  | err e ↦ err e
  | ok base_fee ↦ ok (saturating_add u128_max base_fee (calculate_call_fee call_data))
]
