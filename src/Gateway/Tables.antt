-- ===== src/Gateway/Tables.antt =====
-- The three tables of parachains in xcm_gateway.rs (fees, delivery times, supported ids) against
-- each other and the validator.
use gas_leap.Base.{
  ℕ, ◌+◌, ◌*◌, ◌≤◌, ◌<◌, ◌^◌, ◌≡◌, List, true, ok, is_ok, arith, ◌==◌, if◌then◌else◌, length, ◌&&◌,
}
use gas_leap.Gateway.Message.{is_supported_parachain, is_valid_target}
use gas_leap.Gateway.Fee.{estimate_fee}
use gas_leap.Gateway.Dispatch.{estimate_delivery_time}

-- The base fee that the fee table means, as a total function.
abbrev pub base_fee_of : ℕ → ℕ
base_fee_of target =
    if target == 2000
    then 1000
    else if target == 2006
    then 800
    else if target == 2012
    then 1200
    else 900

-- A fee, and a delivery time, is there for exactly the supported parachains; each of these passes
-- the validator's check of the target.
pub tables_agree :
    (target : ℕ) (call_data : List ℕ)
    → (is_ok (estimate_fee target call_data) ≡ is_supported_parachain target)
      × (is_ok (estimate_delivery_time target) ≡ is_supported_parachain target)
      × ((is_supported_parachain target && is_valid_target target) ≡ is_supported_parachain target)
unfolding estimate_fee estimate_delivery_time is_supported_parachain is_valid_target
tables_agree target call_data = (ground arith, ground arith, ground arith)

-- For call data below 2 ^ 32 bytes the fee of a supported parachain is its base fee and 2 for
-- each byte, with no saturation.
estimate_fee_exact :
    (target : ℕ) (call_data : List ℕ)
    → length call_data < 2 ^ 32
    → is_supported_parachain target ≡ true
    → estimate_fee target call_data ≡ ok (base_fee_of target + 2 * length call_data)
unfolding estimate_fee is_supported_parachain
estimate_fee_exact target call_data short h = ground arith

-- Every fee lies between 800 and 1200 and twice the length, also where the length wraps.
estimate_fee_bounds :
    (target : ℕ) (call_data : List ℕ) (fee : ℕ)
    → estimate_fee target call_data ≡ ok fee
    → (800 ≤ fee) × (fee ≤ 1200 + 2 * length call_data)
unfolding estimate_fee
estimate_fee_bounds target call_data fee h = ground arith
