-- ===== src/Pallet/Abstract/Postponing.antt =====
-- A call of pallets/sponsorship/src/lib.rs by which an owner manages a pool, before or after any
-- number of calls that are not on the pool.
use mathlib.Core.Path.{ap₂}
use gas_leap.Base.{ℕ, ◌≡◌, ◌≢◌, refl, List, [], ◌∷◌, some, Result, ap, sym, ◌∙◌}
use gas_leap.Types.{DispatchError}
use gas_leap.Frame.{Frame}
use gas_leap.Pallet.{World}
use gas_leap.Pallet.History.{Call, StorageLayer, apply}
use gas_leap.Pallet.Abstract.{View, view}
use gas_leap.Pallet.Abstract.Editing.{Management, Bag, on, unordered}
use gas_leap.Pallet.Abstract.Following.{touches}
use gas_leap.Pallet.Abstract.Observing.{perform-unordered}
use gas_leap.Pallet.Abstract.Simulation.{apply-perform}
use gas_leap.Pallet.Abstract.Commuting.{Commute, manage-Commute}

-- Steps one after the other, with the results in their order.
abbrev pub all : {A I S : Type 0} → (I → A → S × A) → List I → A → List S × A
all g [] a = ([], a)
all g (i ∷ is) a = let (s, a') = g i a in let (ss, a'') = all g is a' in (s ∷ ss, a'')

-- Steps that give states which `u` shows alike the same result, and leave them alike.
abbrev Sees : {A B S : Type 0} → (A → B) → (A → S × A) → Type 0
Sees u g = (a b : _) → u a ≡ u b → ((g a).0 ≡ (g b).0) × (u (g a).1 ≡ u (g b).1)

all-Sees :
    {A B I S : Type 0} (u : A → B) (g : I → A → S × A)
    → ((i : I) → Sees u (g i))
    → (is : List I) → Sees u (all g is)
all-Sees u g sees [] a b h = (refl, h)
all-Sees u g sees (i ∷ is) a b h =
    let (e, h') = sees i a b h in
    let (es, h'') = all-Sees u g sees is (g i a).1 (g i b).1 h' in (ap₂ (λ s ss. s ∷ ss) e es, h'')

-- A condition on each step and the state it is made in.
abbrev pub Along : {A I S : Type 0} → (I → A → Type 0) → (I → A → S × A) → List I → A → Type 0
Along P g [] a = Unit
Along P g (i ∷ is) a = P i a × Along P g is (g i a).1

all-Commute :
    {A B I R S : Type 0} (u : A → B) (f : A → R × A) (g : I → A → S × A)
    → ((i : I) → Sees u (g i))
    → (is : List I) (a : A) → Along (λ i a. Commute u f (g i) a) g is a
    → Commute u f (all g is) a
all-Commute u f g sees [] a h = (refl, refl, refl)
all-Commute u f g sees (i ∷ is) a ((r, s, alike), h) =
    let (r', ss, alike') = all-Commute u f g sees is (g i a).1 h in
    let (ss', alike'') = all-Sees u g sees is (g i (f a).1).1 (f (g i a).1).1 alike in
    (r' ∙ r, ap₂ (λ s ss. s ∷ ss) s (ss' ∙ ss), alike'' ∙ alike')

Along-map :
    {A I S : Type 0} (P Q : I → A → Type 0) (g : I → A → S × A)
    → ((i : I) (a : A) → P i a → Q i a)
    → (is : List I) (a : A) → Along P g is a
    → Along Q g is a
Along-map P Q g h [] a t = tt
Along-map P Q g h (i ∷ is) a (x, t) = (h i a x, Along-map P Q g h is (g i a).1 t)

module _ {Ledger Origin : Type 0} (frame : Frame Ledger Origin) (layer : StorageLayer Ledger) where
  -- The storage of a world, with the events in no order.
  abbrev pub shown : World Ledger → View Ledger × Bag
  shown w = unordered (view w.storage)

  -- The call of an origin.
  abbrev pub made : Origin × Call → World Ledger → Result DispatchError (Unit {0}) × World Ledger
  made (o, c) = apply frame layer o c

  made-Sees : (c : Origin × Call) → Sees shown (made c)
  made-Sees (o, c) w w' h =
      let (e, h') = perform-unordered frame o c (view w.storage) (view w'.storage) h in
      let seen = apply-perform frame layer o c w in
      let seen' = apply-perform frame layer o c w' in
      (
        sym (ap (λ x. x.0) seen) ∙ e ∙ ap (λ x. x.0) seen',
        sym (ap (λ x. unordered x.1) seen) ∙ h' ∙ ap (λ x. unordered x.1) seen',
      )

  -- The call is not on pool `p`, and does not create it.
  abbrev pub Elsewhere : ℕ → Origin × Call → World Ledger → Type 0
  Elsewhere p (o, c) w = touches c w.next_pool_id ≢ some p

  -- A call by which someone manages pool `p` (a new configuration, a rule more, a rule less), and any
  -- number of calls of anyone that are not on pool `p`, and do not create it, can be made in either
  -- order: every call gives the same result both times, error or not, and the storage comes out the
  -- same, but for the order of the events and of a map's entries.
  pub manage_commutes :
      (o : Origin) (p : ℕ) (m : Management) (cs : List (Origin × Call)) (w : World Ledger)
      → Along (Elsewhere p) made cs w
      → Commute shown (made (o, on p m)) (all made cs) w
  manage_commutes o p m cs w h = all-Commute shown (made (o, on p m)) made made-Sees cs w (
      Along-map (Elsewhere p) _ made (λ (o', c) w ne. manage-Commute frame o o' p m c layer w ne) cs
        w h)
