-- ===== src/Tests/Units/Messages.antt =====
-- `mod tests` of pallets/sponsorship/src/xcm_gateway.rs.
use gas_leap.Base.{ℕ, ◌≡◌, refl, List, [], ◌∷◌, ok, err}
use gas_leap.Gateway.{DemoXcmMessage, ValidationResult, unsupported_destination}
use gas_leap.Gateway.Message.{
  build_demo_message, format_for_astar, format_for_acala, validate_message,
}
use gas_leap.Gateway.Fee.{estimate_fee}

abbrev pub call_data : List ℕ
call_data = 1 ∷ 2 ∷ 3 ∷ 4 ∷ []

abbrev pub message_to : ℕ → List ℕ → DemoXcmMessage
message_to target call = record {
  target = target;
  call = call;
  max_fee = 1000;
  sponsor = 1;
  transaction_id = 1;
}

abbrev TestBuildDemoMessage : Type 0
TestBuildDemoMessage =
    (message : DemoXcmMessage) × (build_demo_message 2006 call_data 1000 1 1 ≡ ok message)
    × (message.target ≡ 2006)
    × (message.call ≡ call_data)
    × (message.max_fee ≡ 1000)
    × (message.sponsor ≡ 1)
    × (message.transaction_id ≡ 1)

abbrev TestFormatForAstar : Type 0
TestFormatForAstar =
    (message : DemoXcmMessage) × (format_for_astar call_data 1000 1 1 ≡ ok message)
    × (message.target ≡ 2006)

abbrev TestFormatForAcala : Type 0
TestFormatForAcala =
    (message : DemoXcmMessage) × (format_for_acala call_data 1000 1 1 ≡ ok message)
    × (message.target ≡ 2000)

abbrev TestValidateMessageValid : Type 0
TestValidateMessageValid = validate_message (message_to 2006 call_data) ≡ ValidationResult.valid

abbrev TestValidateMessageInvalidTarget : Type 0
TestValidateMessageInvalidTarget =
    validate_message (message_to 9999 call_data) ≡ ValidationResult.invalid_target

abbrev TestValidateMessageEmptyCall : Type 0
TestValidateMessageEmptyCall =
    validate_message (message_to 2006 []) ≡ ValidationResult.invalid_call_data

abbrev TestFeeEstimation : Type 0
TestFeeEstimation = (estimate_fee 2006 call_data ≡ ok 808) × (estimate_fee 2000 call_data ≡ ok 1008)

abbrev TestUnsupportedParachain : Type 0
TestUnsupportedParachain = estimate_fee 9999 call_data ≡ err unsupported_destination

message_tests :
    TestBuildDemoMessage × TestFormatForAstar × TestFormatForAcala × TestValidateMessageValid
    × TestValidateMessageInvalidTarget × TestValidateMessageEmptyCall × TestFeeEstimation
    × TestUnsupportedParachain
unfolding build_demo_message format_for_astar format_for_acala validate_message estimate_fee
message_tests = (
  (message_to 2006 call_data, refl, refl, refl, refl, refl, refl),
  (message_to 2006 call_data, refl, refl),
  (message_to 2000 call_data, refl, refl),
  refl,
  refl,
  refl,
  (refl, refl),
  refl,
)
