-- ===== src/Gateway/Formats.antt =====
-- The ways to build a message, against each other and the validator.
use gas_leap.Base.{
  ℕ, ◌≤◌, ◌≡◌, refl, List, [], ◌∷◌, true, ok, arith, if◌then◌else◌, length, ◌==◌, ◌||◌,
}
use gas_leap.Gateway.{DemoXcmMessage, ValidationResult}
use gas_leap.Gateway.Message.{
  build_demo_message, format_for_parachain, format_for_astar, format_for_acala, astar_para_id,
  acala_para_id, is_supported_parachain, validate_message, validate_call_data_for_chain, is_empty,
  max_call_size,
}

-- A message that is built for a supported parachain carries its arguments and at most 1024 bytes.
-- The formatter for parachains builds the same one, and the validator finds nothing wrong with it
-- but, at most, that its call data is empty. The check of call data for a chain, however, accepts
-- two of the four supported parachains, 2000 and 2006.
pub build_validates :
    (target : ℕ) (call_data : List ℕ) (max_fee pool_id id : ℕ) (m : DemoXcmMessage)
    → is_supported_parachain target ≡ true
    → build_demo_message target call_data max_fee pool_id id ≡ ok m
    → (m ≡ record {
      target = target;
      call = call_data;
      max_fee = max_fee;
      sponsor = pool_id;
      transaction_id = id;
    })
      × (length m.call ≤ max_call_size)
      × (format_for_parachain target call_data max_fee pool_id id ≡ ok m)
      × (validate_message m ≡ (
          if is_empty call_data
          then ValidationResult.invalid_call_data
          else ValidationResult.valid))
      × (validate_call_data_for_chain target call_data ≡ (
          if target == 2000 || target == 2006
          then ValidationResult.valid
          else ValidationResult.invalid_target))
unfolding build_demo_message format_for_parachain validate_message is_supported_parachain
    validate_call_data_for_chain
build_validates target [] max_fee pool_id id m s h =
    (ground arith, ground arith, ground arith, ground arith, ground arith)
build_validates target (x ∷ xs) max_fee pool_id id m s h =
    (ground arith, ground arith, ground arith, ground arith, ground arith)

-- The formatters for Astar and Acala build what the formatter for parachains builds for their ids.
pub formats_agree :
    (call_data : List ℕ) (max_fee pool_id id : ℕ)
    → (format_for_parachain astar_para_id call_data max_fee pool_id id
        ≡ format_for_astar call_data max_fee pool_id id)
      × (format_for_parachain acala_para_id call_data max_fee pool_id id
          ≡ format_for_acala call_data max_fee pool_id id)
unfolding format_for_parachain format_for_astar format_for_acala is_supported_parachain
formats_agree call_data max_fee pool_id id = (refl, refl)
