-- ===== src/Runtime.antt =====
-- runtime/src/lib.rs: the constants of the runtime that its own code computes, and the fee that a
-- weight costs. Numbers are u128 (balances), u32 (blocks) and u64 (milliseconds).
pub mod Fees
pub mod Inherents
pub mod Limits
use gas_leap.Base.{ℕ, ◌*◌, ◌+◌, List, [], ◌∷◌, Bool, false}
use Prim.Native.Nat.{◌/◌, ◌%◌}
use Prim.Native.String.{String}

-- Less `apis`, a table that the API macro makes.
pub record RuntimeVersion : Type 0 where
  pub spec_name : String
  pub impl_name : String
  pub authoring_version : ℕ
  pub spec_version : ℕ
  pub impl_version : ℕ
  pub transaction_version : ℕ
  pub state_version : ℕ

abbrev pub version : RuntimeVersion
version = record {
  spec_name = "gasleap";
  impl_name = "gasleap";
  authoring_version = 1;
  spec_version = 1;
  impl_version = 0;
  transaction_version = 1;
  state_version = 1;
}

abbrev pub millisecs_per_block : ℕ
millisecs_per_block = 12000

abbrev pub slot_duration : ℕ
slot_duration = millisecs_per_block

abbrev pub minutes : ℕ
minutes = 60000 / millisecs_per_block

abbrev pub hours : ℕ
hours = minutes * 60

abbrev pub days : ℕ
days = hours * 24

abbrev pub minimum_period : ℕ
minimum_period = slot_duration / 2

-- The session pallet's period and offset, and the collator selection's bounds.
abbrev pub period : ℕ
period = 6 * hours

abbrev pub offset : ℕ
offset = 0

abbrev pub session_length : ℕ
session_length = 6 * hours

abbrev pub kick_threshold : ℕ
kick_threshold = period

abbrev pub max_candidates : ℕ
max_candidates = 1000

abbrev pub min_candidates : ℕ
min_candidates = 5

abbrev pub max_invulnerables : ℕ
max_invulnerables = 100

abbrev pub unit : ℕ
unit = 1000000000000

abbrev pub milliunit : ℕ
milliunit = 1000000000

abbrev pub microunit : ℕ
microunit = 1000000

abbrev pub existential_deposit : ℕ
existential_deposit = milliunit

abbrev pub transaction_byte_fee : ℕ
transaction_byte_fee = 10 * microunit

abbrev pub max_pools_per_account : ℕ
max_pools_per_account = 100

abbrev pub max_authorizations_per_pool : ℕ
max_authorizations_per_pool = 1000

abbrev pub min_pool_deposit : ℕ
min_pool_deposit = 100 * unit

-- `Perbill` is sp_arithmetic's: parts in a billion.
pub record WeightToFeeCoefficient (Perbill : Type 0) : Type 0 where
  pub degree : ℕ
  pub negative : Bool
  pub coeff_frac : Perbill
  pub coeff_integer : ℕ

-- `WeightToFee::polynomial`. `base` is `ExtrinsicBaseWeight::get().ref_time()`, and `from_rational`
-- is `Perbill::from_rational`.
unfoldable pub polynomial :
    {Perbill : Type 0} → (ℕ → ℕ → Perbill) → ℕ → List (WeightToFeeCoefficient Perbill)
polynomial from_rational base =
    let p = milliunit / 10 in
    let q = 100 * base in
    record {
      degree = 1;
      negative = false;
      coeff_frac = from_rational (p % q) q;
      coeff_integer = p / q;
    }
    ∷ []
