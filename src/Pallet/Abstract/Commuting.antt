-- ===== src/Pallet/Abstract/Commuting.antt =====
-- A call of pallets/sponsorship/src/lib.rs by which an owner manages a pool, and a call on another
-- pool, in either order.
use mathlib.Core.Path.{subst}
use gas_leap.Base.{
  ℕ, ◌≡◌, ◌≢◌, refl, Result-cases, inl, inr, nat_eq, pair_eq, some, Result, ok, err, ap, sym, ◌∙◌,
}
use gas_leap.Base.Results.{◌>>=◌}
use gas_leap.Types.{PoolInfo, type_eq, DispatchError}
use gas_leap.Frame.{Frame}
use gas_leap.Pallet.{World}
use gas_leap.Pallet.History.{Call, StorageLayer, apply}
use gas_leap.Pallet.Abstract.{View, view, verdict, owned, perform, settled}
use gas_leap.Pallet.Abstract.Simulation.{apply-perform}
use gas_leap.Pallet.Abstract.Editing.{
  configure, authorize, deauthorize, edit, unordered, Management, on, edit_of,
}
use gas_leap.Pallet.Abstract.Following.{Follows, touches}
use gas_leap.Pallet.Abstract.Charging.{verdict-Follows}
use gas_leap.Pallet.Abstract.Keeping.{Keeps, verdict-Keeps, owned-keep}

-- Two steps give the same results, and the same state as `u` shows it, in either order.
abbrev pub Commute : {A B R S : Type 0} → (u : A → B) → (f : A → R × A) (g : A → S × A) → A → Type 0
Commute u f g a =
    ((f (g a).1).0 ≡ (f a).0) × ((g (f a).1).0 ≡ (g a).0) × (u (g (f a).1).1 ≡ u (f (g a).1).1)

Commute-square :
    {A B R S : Type 0} (u : A → B) (f : A → R × A) (g : A → S × A) (a a1 a2 a12 a21 : A) (r : R)
    (s : S)
    → f a ≡ (r, a1)
    → g a ≡ (s, a2)
    → g a1 ≡ (s, a12)
    → f a2 ≡ (r, a21)
    → u a12 ≡ u a21
    → Commute u f g a
Commute-square u f g a a1 a2 a12 a21 r s e1 e2 e3 e4 e5 = rw (e1, e2, e3, e4) (refl, refl, e5)

-- Steps that a view follows commute when those of the view do.
Commute-along :
    {W A B R S : Type 0} (u : A → B) (f : A → R × A) (g : A → S × A) (φ : W → A) (F : W → R × W)
    (G : W → S × W) (w : W)
    → ((w : W) → f (φ w) ≡ ((F w).0, φ (F w).1))
    → ((w : W) → g (φ w) ≡ ((G w).0, φ (G w).1))
    → Commute u f g (φ w)
    → Commute (λ w. u (φ w)) F G w
Commute-along u f g φ F G w hf hg (a, b, c) =
    let e = hf w in
    let e' = hg w in
    let h = hf (G w).1 in
    let h' = hg (F w).1 in
    (
      sym (ap (λ x. x.0) h) ∙ ap (λ x. (f x.1).0) (sym e') ∙ a ∙ ap (λ x. x.0) e,
      sym (ap (λ x. x.0) h') ∙ ap (λ x. (g x.1).0) (sym e) ∙ b ∙ ap (λ x. x.0) e',
      sym (ap (λ x. u x.1) h')
          ∙ ap (λ x. u (g x.1).1) (sym e)
          ∙ c
          ∙ ap (λ x. u (f x.1).1) e'
          ∙ ap (λ x. u x.1) h,
    )

module _ {Ledger Origin : Type 0} (frame : Frame Ledger Origin) (o : Origin) where
  -- What a management call does, from what the test for the owner gives.
  verdict-on :
      (p : ℕ) (m : Management) (v : View Ledger) (r : Result DispatchError PoolInfo)
      → owned frame o p v ≡ r
      → verdict frame o (on p m) v ≡ (r >>= λ info. ok (edit (edit_of p m info) v))
  unfolding edit_of
  verdict-on p (configure config) v r h = rw (← h) refl
  verdict-on p (authorize rule) v r h = rw (← h) refl
  verdict-on p (deauthorize t) v r h = rw (← h) refl

module _ {Ledger Origin : Type 0} (frame : Frame Ledger Origin) (o o' : Origin) (p : ℕ)
    (m : Management) (c : Call) where
  perform-Commute :
      (v : View Ledger)
      → touches c v.next_pool_id ≢ some p
      → Commute unordered (perform frame o (on p m)) (perform frame o' c) v
  perform-Commute v ne = elim (Result-cases (owned frame o p v)) [
    | inr (x, h) ↦ elim (Result-cases (verdict frame o' c v)) [
      | inr (y, k) ↦
          Commute-square unordered (perform frame o (on p m)) (perform frame o' c) v v v v v (err x)
            (err y) (ap (settled v) (verdict-on frame o p m v (err x) h)) (ap (settled v) k)
            (ap (settled v) k) (ap (settled v) (verdict-on frame o p m v (err x) h)) refl
      | inl (v', k) ↦
          let same = subst (Keeps p v) k (verdict-Keeps frame o' p c v ne) in
          let still = owned-keep frame o p v v' same ∙ h in
          Commute-square unordered (perform frame o (on p m)) (perform frame o' c) v v v' v' v'
            (err x) (ok tt) (ap (settled v) (verdict-on frame o p m v (err x) h)) (ap (settled v) k)
            (ap (settled v) k) (ap (settled v') (verdict-on frame o p m v' (err x) still)) refl
    ]
    | inl (info, h) ↦
        let e = edit_of p m info in
        let follows = verdict-Follows frame o' v e c ne in
        elim (Result-cases (verdict frame o' c v)) [
          | inr (y, k) ↦
              let fails = subst (λ b. Follows e b (verdict frame o' c (edit e v))) k follows in
              Commute-square unordered (perform frame o (on p m)) (perform frame o' c) v (edit e v)
                v (edit e v) (edit e v) (ok tt) (err y)
                (ap (settled v) (verdict-on frame o p m v (ok info) h)) (ap (settled v) k)
                (ap (settled (edit e v)) fails)
                (ap (settled v) (verdict-on frame o p m v (ok info) h)) refl
          | inl (v', k) ↦
              let same = subst (Keeps p v) k (verdict-Keeps frame o' p c v ne) in
              let still = owned-keep frame o p v v' same ∙ h in
              let (v'', after, alike) =
                subst (λ b. Follows e b (verdict frame o' c (edit e v))) k follows in
              Commute-square unordered (perform frame o (on p m)) (perform frame o' c) v (edit e v)
                v' v'' (edit e v') (ok tt) (ok tt)
                (ap (settled v) (verdict-on frame o p m v (ok info) h)) (ap (settled v) k)
                (ap (settled (edit e v)) after)
                (ap (settled v') (verdict-on frame o p m v' (ok info) still)) alike
        ]
  ]

  pub manage-Commute :
      (layer : StorageLayer Ledger) (w : World Ledger)
      → touches c w.next_pool_id ≢ some p
      → Commute
          (λ w. unordered (view w.storage))
          (apply frame layer o (on p m))
          (apply frame layer o' c)
          w
  manage-Commute layer w ne =
      Commute-along unordered (perform frame o (on p m)) (perform frame o' c) (λ w. view w.storage)
        (apply frame layer o (on p m)) (apply frame layer o' c) w
        (apply-perform frame layer o (on p m)) (apply-perform frame layer o' c)
        (perform-Commute (view w.storage) ne)
