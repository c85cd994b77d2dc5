-- ===== src/Runtime/Fees.antt =====
-- What the polynomial of WeightToFee stands for.
use Prim.Native.Nat.{◌/◌, ◌%◌}
use gas_leap.Base.{ℕ, ◌+◌, ◌*◌, ◌<◌, ◌≡◌, refl, [], ◌∷◌, false, arith}
use gas_leap.Runtime.{polynomial, milliunit}

-- The polynomial is one coefficient, of degree 1 and not negative. Its integer and its fraction, of
-- which Perbill is handed the numerator and the denominator, are together 1/1000 of a milliunit at
-- the base weight of an extrinsic; a fraction is below one.
pub polynomial_lem :
    {Perbill : Type 0} (from_rational : ℕ → ℕ → Perbill) (base : ℕ)
    → 0 < base
    → (integer numerator denominator : ℕ) × (polynomial from_rational base
        ≡ record {
          degree = 1;
          negative = false;
          coeff_frac = from_rational numerator denominator;
          coeff_integer = integer;
        }
          ∷ [])
      × (numerator < denominator)
      × ((integer * denominator + numerator) * base * 1000 ≡ milliunit * denominator)
unfolding polynomial
polynomial_lem from_rational base h = (p / q, p % q, q, refl, grind arith, grind arith)
  where
    p : ℕ
    p = milliunit / 10

    q : ℕ
    q = 100 * base
