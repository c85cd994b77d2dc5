-- ===== src/Base/Results.antt =====
-- Chains of calls that may fail and keep no state: `?` on a `Result`.
use gas_leap.Base.Effects.{Result, ok, err}

infixl 5 ◌>>=◌ ◌>>◌
abbrev pub ◌>>=◌ : {E A B : Type 0} → Result E A → (A → Result E B) → Result E B
ok a >>= f = f a
err e >>= f = err e

abbrev pub ◌>>◌ : {E A B : Type 0} → Result E A → Result E B → Result E B
m >> k = m >>= λ _. k

-- `result.map_err(f)`
abbrev pub map_err : {E D A : Type 0} → (E → D) → Result E A → Result D A
map_err f (ok a) = ok a
map_err f (err e) = err (f e)
