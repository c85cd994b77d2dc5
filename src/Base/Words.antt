-- ===== src/Base/Words.antt =====
-- Machine integers as native numbers: the largest values, and the saturating operations.
use Prim.Native.Nat.{ℕ, ◌+◌, ◌-◌, ◌*◌, ◌^◌, min}

abbrev pub u32_max : ℕ
u32_max = 2 ^ 32 - 1

abbrev pub u64_max : ℕ
u64_max = 2 ^ 64 - 1

abbrev pub u128_max : ℕ
u128_max = 2 ^ 128 - 1

-- `a.saturating_add(b)` for the integer type whose largest value is `bound`.
abbrev pub saturating_add : ℕ → ℕ → ℕ → ℕ
saturating_add bound a b = min (a + b) bound

-- `a.saturating_sub(b)` of an unsigned type: `-` on ℕ stops at 0 too.
abbrev pub saturating_sub : ℕ → ℕ → ℕ
saturating_sub a b = a - b

abbrev pub saturating_mul : ℕ → ℕ → ℕ → ℕ
saturating_mul bound a b = min (a * b) bound
