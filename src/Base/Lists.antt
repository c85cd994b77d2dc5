-- ===== src/Base/Lists.antt =====
-- Lists measured by native numbers, and membership tests.
use Prim.Native.Nat.{ℕ, suc}
use mathlib.Core.Bool.{Bool, false, ◌||◌}
use mathlib.Core.List.{List, [], ◌∷◌}
use mathlib.Core.Option.{Option, none, some}
use gas_leap.Base.Tests.{◌==◌, leb, if◌then◌else◌}

module _ {ℓ} {A : Type ℓ} where
  abbrev pub length : List A → ℕ
  length [] = 0
  length (x ∷ xs) = suc (length xs)

  -- `BoundedVec::<A, ConstU32<bound>>::try_from`.
  abbrev pub try_bounded : ℕ → List A → Option (List A)
  try_bounded bound xs = if leb (length xs) bound then some xs else none

-- `Vec::contains` at numbers.
abbrev pub contains : List ℕ → ℕ → Bool
contains [] n = false
contains (x ∷ xs) n = x == n || contains xs n
