-- ===== src/Node/Service/Runs.antt =====
-- What a part of a start does to the list of steps, where it succeeds and where it fails.
use gas_leap.Base.{
  ◌≡◌, refl, List, [], ◌∷◌, Bool, true, false, Result, ok, err, if◌then◌else◌, pure, lift, ◌>>=◌,
  arith, Result-cases, inl, inr,
}
use gas_leap.Node.Service.{
  Step, collator_started, full_node_started, StartError, Start, Crates, emit,
}

-- A collator or a full node is among the steps.
abbrev pub has_started : List Step → Bool
has_started [] = false
has_started (collator_started ∷ steps) = true
has_started (full_node_started ∷ steps) = true
has_started (_ ∷ steps) = has_started steps

module _ {Error HwBench : Type 0} (crates : Crates Error HwBench) where
  pub record Runs {A : Type 0} (m : Start crates A) (add : List Step → List Step) : Type 0 where
    pub adds : (s : List Step) (a : A) → (m s).0 ≡ ok a → (m s).1 ≡ add s
    pub fails :
        (s : List Step) (e : StartError Error)
        → (m s).0 ≡ err e
        → has_started (m s).1 ≡ has_started s

  pub Runs->>= :
      {A B : Type 0} {m : Start crates A} {f : A → Start crates B}
      {add add' : List Step → List Step}
      → Runs m add
      → ((s : List Step) → has_started (add s) ≡ has_started s)
      → ((a : A) → Runs (f a) add')
      → Runs (m >>= f) (λ s. add' (add s))
  Runs->>= {m = m} {f = f} {add = add} r q r' = record {
    adds = λ s b h. elim (Result-cases (m s).0) [
      | inl (a, e) ↦ ground (arith, r.adds s a e, (r' a).adds (m s).1 b)
      | inr (x, e) ↦ ground arith
    ];
    fails = λ s x h. elim (Result-cases (m s).0) [
      | inl (a, e) ↦ ground (arith, r.adds s a e, q s, (r' a).fails (m s).1 x)
      | inr (y, e) ↦ ground (arith, r.fails s y e)
    ];
  }

  pub Runs-lift : {A : Type 0} (r : Result (StartError Error) A) → Runs {A = A} (lift r) (λ s. s)
  Runs-lift r = record { adds = λ s a h. refl; fails = λ s e h. refl }

  pub Runs-emit : (step : Step) → Runs (emit crates step) (λ s. step ∷ s)
  Runs-emit step = record { adds = λ s a h. refl; fails = λ s e h. cc }

  pub Runs-if :
      (b : Bool) (step : Step)
      → Runs (if b then emit crates step else pure tt) (λ s. if b then step ∷ s else s)
  Runs-if true step = record { adds = λ s a h. refl; fails = λ s e h. cc }
  Runs-if false step = record { adds = λ s a h. refl; fails = λ s e h. cc }
