-- ===== src/Gateway/Message.antt =====
-- XcmMessageBuilder and XcmMessageValidator.
use gas_leap.Base.{
  ℕ, List, [], ◌∷◌, Bool, true, false, not, ◌&&◌, ◌||◌, none, some, Result, ok, err, length, leb,
  ltb, ◌==◌, if◌then◌else◌, try_bounded,
}
use gas_leap.Gateway.{
  DemoXcmMessage, ValidationResult, XcmGatewayError, message_format_error, unsupported_destination,
}

-- The bound of `DemoXcmMessage::call`.
abbrev pub max_call_size : ℕ
max_call_size = 1024

unfoldable pub build_demo_message : ℕ → List ℕ → ℕ → ℕ → ℕ → Result XcmGatewayError DemoXcmMessage
build_demo_message target_parachain call_data max_fee pool_id transaction_id =
    elim (try_bounded max_call_size call_data) [
      | none ↦ err message_format_error
      | some bounded_call ↦ ok (record {
        target = target_parachain;
        call = bounded_call;
        max_fee = max_fee;
        sponsor = pool_id;
        transaction_id = transaction_id;
      })
    ]

abbrev pub astar_para_id : ℕ
astar_para_id = 2006

abbrev pub acala_para_id : ℕ
acala_para_id = 2000

unfoldable pub format_for_astar : List ℕ → ℕ → ℕ → ℕ → Result XcmGatewayError DemoXcmMessage
unfolding build_demo_message
format_for_astar = build_demo_message astar_para_id

unfoldable pub format_for_acala : List ℕ → ℕ → ℕ → ℕ → Result XcmGatewayError DemoXcmMessage
unfolding build_demo_message
format_for_acala = build_demo_message acala_para_id

unfoldable pub is_supported_parachain : ℕ → Bool
is_supported_parachain para_id =
    para_id == 2000 || para_id == 2006 || para_id == 2012 || para_id == 2030

unfoldable pub format_for_parachain : ℕ → List ℕ → ℕ → ℕ → ℕ → Result XcmGatewayError DemoXcmMessage
unfolding is_supported_parachain build_demo_message
format_for_parachain target_parachain call_data max_fee pool_id transaction_id =
    if not (is_supported_parachain target_parachain)
    then err unsupported_destination
    else build_demo_message target_parachain call_data max_fee pool_id transaction_id

unfoldable pub is_valid_target : ℕ → Bool
is_valid_target para_id = leb 2000 para_id && leb para_id 2100

unfoldable pub is_excessive_fee : ℕ → Bool
is_excessive_fee fee = false

-- `Vec::is_empty`
abbrev pub is_empty : List ℕ → Bool
is_empty [] = true
is_empty (x ∷ xs) = false

unfoldable pub validate_message : DemoXcmMessage → ValidationResult
unfolding is_valid_target is_excessive_fee
validate_message message =
    if not (is_valid_target message.target)
    then ValidationResult.invalid_target
    else if is_empty message.call || ltb max_call_size (length message.call)
    then ValidationResult.invalid_call_data
    else if is_excessive_fee message.max_fee
    then ValidationResult.excessive_fee
    else ValidationResult.valid

unfoldable validate_acala_call : List ℕ → ValidationResult
validate_acala_call call_data = ValidationResult.valid

unfoldable validate_astar_call : List ℕ → ValidationResult
validate_astar_call call_data = ValidationResult.valid

unfoldable pub validate_call_data_for_chain : ℕ → List ℕ → ValidationResult
unfolding validate_acala_call validate_astar_call
validate_call_data_for_chain target_chain call_data =
    if target_chain == 2000
    then validate_acala_call call_data
    else if target_chain == 2006
    then validate_astar_call call_data
    else ValidationResult.invalid_target
