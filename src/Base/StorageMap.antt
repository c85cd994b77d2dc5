-- ===== src/Base/StorageMap.antt =====
-- A FRAME storage map: `get`, `insert`, `remove`. A value under a key that is there is replaced in
-- place. What iterates over a map gets the entries in the order of the hashed keys, which a
-- parameter gives (Frame).
use Prim.Native.Nat.{ℕ, ◌+◌, ◌≤◌}
use mathlib.Core.Path.{◌≡◌, refl, ◌∙◌, subst, ap}
use mathlib.Core.List.{List, [], ◌∷◌, Perm, Permᴰ}
use native.Mathlib.Nat.{ℕ_set}
use mathlib.Core.Logic.{◌≢◌, inl, inr, ∥∥₁_elim}
use mathlib.Core.Option.{Option, none, some}
use native.Mathlib.Omega.{arith}
use gas_leap.Base.Tests.{Eq, Bool-cases, if◌then◌else◌}

abbrev pub StorageMap {ℓ} : Type ℓ → Type ℓ → Type ℓ
StorageMap K V = List (K × V)

module _ {ℓ} {K V : Type ℓ} ⦃e : Eq K⦄ where
  unfoldable pub get : K → StorageMap K V → Option V
  get k [] = none
  get k ((j, v) ∷ m) = if e.beq j k then some v else get k m

  unfoldable pub insert : K → V → StorageMap K V → StorageMap K V
  insert k v [] = (k, v) ∷ []
  insert k v ((j, w) ∷ m) = if e.beq j k then (k, v) ∷ m else (j, w) ∷ insert k v m

  unfoldable pub remove : K → StorageMap K V → StorageMap K V
  remove k [] = []
  remove k ((j, w) ∷ m) = if e.beq j k then remove k m else (j, w) ∷ remove k m

  pub get-insert :
      (k j : K) (v : V) (m : StorageMap K V)
      → get j (insert k v m) ≡ (if e.beq k j then some v else get j m)
  unfolding get insert
  get-insert k j v [] = refl
  get-insert k j v ((i, w) ∷ m) =
      ground (arith, e.beq_iff k j, e.beq_iff i k, e.beq_iff i j, get-insert k j v m)

  pub get-insert_self : (k : K) (v : V) (m : StorageMap K V) → get k (insert k v m) ≡ some v
  get-insert_self k v m = ground (arith, get-insert k k v m, e.beq_iff k k)

  pub get-insert_ne :
      (k j : K) (v : V) (m : StorageMap K V) → k ≢ j → get j (insert k v m) ≡ get j m
  get-insert_ne k j v m h = ground (arith, get-insert k j v m, e.beq_iff k j)

  pub get-remove :
      (k j : K) (m : StorageMap K V) → get j (remove k m) ≡ (if e.beq k j then none else get j m)
  unfolding get remove
  get-remove k j [] = ground arith
  get-remove k j ((i, w) ∷ m) =
      ground (arith, e.beq_iff k j, e.beq_iff i k, e.beq_iff i j, get-remove k j m)

-- A measure of the values, added up over the entries.
abbrev pub sum_by : {K V : Type 0} → (V → ℕ) → StorageMap K V → ℕ
sum_by f [] = 0
sum_by f ((k, v) ∷ m) = f v + sum_by f m

module _ {K V : Type 0} ⦃e : Eq K⦄ (f : V → ℕ) where
  pub sum_by-insert :
      (k : K) (v old : V) (m : StorageMap K V)
      → get k m ≡ some old
      → sum_by f (insert k v m) + f old ≡ sum_by f m + f v
  unfolding get insert
  sum_by-insert k v old [] h = cc
  sum_by-insert k v old ((i, w) ∷ m) h = ground (arith, sum_by-insert k v old m)

  pub sum_by-insert_new :
      (k : K) (v : V) (m : StorageMap K V)
      → get k m ≡ none
      → sum_by f (insert k v m) ≡ sum_by f m + f v
  unfolding get insert
  sum_by-insert_new k v [] h = omega arith
  sum_by-insert_new k v ((i, w) ∷ m) h = ground (arith, sum_by-insert_new k v m)

  -- Whether or not the key was there, the sum grows by the new value at most.
  pub sum_by-insert-le :
      (k : K) (v : V) (m : StorageMap K V) → sum_by f (insert k v m) ≤ sum_by f m + f v
  unfolding insert
  sum_by-insert-le k v [] = omega arith
  sum_by-insert-le k v ((i, w) ∷ m) = ground (arith, sum_by-insert-le k v m)

  pub le-sum_by : (k : K) (v : V) (m : StorageMap K V) → get k m ≡ some v → f v ≤ sum_by f m
  unfolding get
  le-sum_by k v [] h = cc
  le-sum_by k v ((i, w) ∷ m) h = ground (arith, le-sum_by k v m)

-- A predicate at every entry of a map.
abbrev pub Every {ℓ} : {K V : Type ℓ} → (K → V → Type 0) → StorageMap K V → Type 0
Every P [] = Unit
Every P ((k, v) ∷ m) = P k v × Every P m

module _ {K V : Type 0} ⦃e : Eq K⦄ (P : K → V → Type 0) where
  pub insert-Every :
      (k : K) (v : V) (m : StorageMap K V) → P k v → Every P m → Every P (insert k v m)
  unfolding insert
  insert-Every k v [] p h = (p, tt)
  insert-Every k v ((i, w) ∷ m) p h = ground (arith, insert-Every k v m p h.1)

  pub get-Every : (k : K) (v : V) (m : StorageMap K V) → Every P m → get k m ≡ some v → P k v
  unfolding get
  get-Every k v [] h g = cc
  get-Every k v ((i, w) ∷ m) h g = elim (Bool-cases (e.beq i k)) [
    | inl hit ↦ subst (λ j. P j v) ((e.beq_iff i k).0 hit) (ground arith)
    | inr miss ↦ get-Every k v m h.1 (ground arith)
  ]

module _ {K V : Type 0} (f : V → ℕ) where
  sum_by-Permᴰ : {m n : StorageMap K V} → Permᴰ m n → sum_by f m ≡ sum_by f n
  sum_by-Permᴰ Permᴰ.nil = refl
  sum_by-Permᴰ (Permᴰ.cons e d) = omega (arith, ap (λ (x : K × V). f x.1) e, sum_by-Permᴰ d)
  sum_by-Permᴰ (Permᴰ.swap e d) =
      omega (arith, ap (λ (x : K × V). f x.1) e, ap (λ (x : K × V). f x.1) d)
  sum_by-Permᴰ (Permᴰ.trans d e) = sum_by-Permᴰ d ∙ sum_by-Permᴰ e

  -- The sum does not depend on the order of the entries.
  pub sum_by-Perm : {m n : StorageMap K V} → Perm m n → sum_by f m ≡ sum_by f n
  sum_by-Perm p = ∥∥₁_elim p (ℕ_set _ _) sum_by-Permᴰ
