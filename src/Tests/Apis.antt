-- ===== src/Tests/Apis.antt =====
-- The theorems on the runtime API, the RPC server and the weights at concrete inputs.
use gas_leap.Base.{ℕ, ◌≤◌, ◌≡◌, refl, ok, err, ◌==◌, if◌then◌else◌, nat_eq}
use gas_leap.Gateway.{DemoXcmMessage, ValidationResult}
use gas_leap.Gateway.Message.{
  build_demo_message, format_for_parachain, is_supported_parachain, validate_message,
  validate_call_data_for_chain, max_call_size,
}
use gas_leap.Gateway.Formats.{build_validates}
use gas_leap.Api.Rpc.{Client}
use gas_leap.Tests.Setting.{Accounts}
use gas_leap.Tests.Scenario.{bytes, ready}

-- A chain of two blocks: the best one, 7, and a pruned one.
abbrev pub client : Client Accounts ℕ ℕ
client = record { state_at = λ h. if h == 7 then ok ready.storage else err 3; best_hash = 7 }

abbrev message : DemoXcmMessage
message = record { target = 2012; call = bytes; max_fee = 1000; sponsor = 1; transaction_id = 1 }

build_validates_example :
    (message ≡ message)
    × (4 ≤ max_call_size)
    × (format_for_parachain 2012 bytes 1000 1 1 ≡ ok message)
    × (validate_message message ≡ ValidationResult.valid)
    × (validate_call_data_for_chain 2012 bytes ≡ ValidationResult.invalid_target)
unfolding build_demo_message is_supported_parachain
build_validates_example = build_validates 2012 bytes 1000 1 1 message refl refl
