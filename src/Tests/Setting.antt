-- ===== src/Tests/Setting.antt =====
-- A currency, a storage layer and an iteration order for the tests, with the laws that the
-- theorems ask of them.
use mathlib.Core.List.{Memᴰ}
use mathlib.Core.List.Perm
use mathlib.Core.List.Memᴰ
use mathlib.Core.Logic.{∥∥₁_elim}
use Prim.Native.Nat.{min}
use gas_leap.Base.{
  ap, sym, ℕ, ◌+◌, ◌-◌, ◌≤◌, ◌≡◌, ◌≢◌, refl, List, [], ◌∷◌, Option, some, Result, ok, err, arith,
  leb, ◌==◌, ◌&&◌, nat_eq, pair_eq, if◌then◌else◌, length, Bool-cases, inl, inr, u128_max,
}
use gas_leap.Base.StorageMap.{StorageMap, get}
use gas_leap.Types.{DispatchError}
use gas_leap.Frame.{Frame, CurrencyLaws}
use gas_leap.Pallet.{World}
use gas_leap.Pallet.History.{StorageLayer}
use gas_leap.Pallet.Queries.{Iteration, IterationLaws}

-- Free balances by account, what the pallet has reserved, and what others have.
pub record Accounts : Type 0 where
  pub free : ℕ → ℕ
  pub held : ℕ → ℕ
  pub bonds : ℕ → ℕ

abbrev pub update : (ℕ → ℕ) → ℕ → ℕ → ℕ → ℕ
update f k v j = if k == j then v else f j

abbrev pub moved : ℕ → ℕ → Accounts → Accounts
moved who amount l = record l {
  free = update l.free who (l.free who - amount);
  held = update l.held who (l.held who + amount);
}

abbrev pub reserve_in : ℕ → ℕ → Accounts → Result ℕ Accounts
reserve_in who amount l =
    if leb amount (l.free who) && leb (l.held who + l.bonds who + amount) u128_max
    then ok (moved who amount l)
    else err 2

-- An origin is signed or not; the minimum deposit is that of pallets/sponsorship/src/mock.rs.
abbrev pub frame : Frame Accounts (Option ℕ)
frame = record {
  ensure_signed = λ o. o;
  hash = length;
  reserve = reserve_in;
  free_balance = λ l. l.free;
  reserved_balance = λ l who. min (l.held who + l.bonds who) u128_max;
  reserved_by_others = λ l who. min (l.bonds who) u128_max;
  min_pool_deposit = 1000;
}

Moved :
    (who amount : ℕ) (l l' : Accounts)
    → reserve_in who amount l ≡ ok l'
    → (amount ≤ l.free who)
      × (l.held who + l.bonds who + amount ≤ u128_max)
      × (moved who amount l ≡ l')
Moved who amount l l' h = (ground arith, ground arith, ground arith)

reserve_moves :
    (who amount : ℕ) (l l' : Accounts)
    → reserve_in who amount l ≡ ok l'
    → (min (l'.held who + l'.bonds who) u128_max ≡ min (l.held who + l.bonds who) u128_max + amount)
      × (l'.free who + amount ≡ l.free who)
reserve_moves who amount l l' h =
    let (enough, fits, e) = Moved who amount l l' h in rw (← e) (ground arith, ground arith)

reserve_others :
    (who amount : ℕ) (l l' : Accounts) (other : ℕ)
    → reserve_in who amount l ≡ ok l'
    → other ≢ who
    → (min (l'.held other + l'.bonds other) u128_max ≡ min (l.held other + l.bonds other) u128_max)
      × (l'.free other ≡ l.free other)
reserve_others who amount l l' other h ne =
    let (enough, fits, e) = Moved who amount l l' h in rw (← e) (ground arith, ground arith)

pub laws : CurrencyLaws frame
laws = record {
  reserve_moves = reserve_moves;
  reserve_others = reserve_others;
  reserve_own = λ who amount l l' other h.
      let (enough, fits, e) = Moved who amount l l' h in
      ap (λ (x : Accounts). min (x.bonds other) u128_max) (sym e);
  others_included = λ l who. omega arith;
  reserved_fits = λ l who. omega arith;
}

-- Commit on success, take back on an error.
unfoldable pub settle :
    World Accounts
    → Result DispatchError (Unit {0}) × World Accounts
    → Result DispatchError (Unit {0}) × World Accounts
settle w (ok u, w') = (ok u, w')
settle w (err e, w') = (err e, record { storage = w.storage; lines = w'.lines })

pub settle-ok :
    (w : World Accounts) (r : Result DispatchError (Unit {0}) × World Accounts)
    → r.0 ≡ ok tt
    → settle w r ≡ (ok tt, r.1)
unfolding settle
settle-ok w (ok u, w') h = refl
settle-ok w (err e, w') h = cc

pub settle-err :
    (w : World Accounts) (r : Result DispatchError (Unit {0}) × World Accounts) (e : DispatchError)
    → r.0 ≡ err e
    → settle w r ≡ (err e, record { storage = w.storage; lines = r.1.lines })
unfolding settle
settle-err w (ok u, w') e h = cc
settle-err w (err d, w') e h = ground arith

abbrev pub layer : StorageLayer Accounts
unfolding settle
layer = record {
  with_storage_layer = λ f w. settle w (f w);
  commits = λ f w h. settle-ok w (f w) h;
  rolls_back = λ f w e h. settle-err w (f w) e h;
}

abbrev keys_of : ℕ → StorageMap (ℕ × ℕ) (Unit {0}) → List ℕ
keys_of owner [] = []
keys_of owner (((a, p), _) ∷ m) = if a == owner then p ∷ keys_of owner m else keys_of owner m

-- Iteration in the order of the list.
abbrev pub order : Iteration
order = record { iter_log = λ m. m; iter_prefix = keys_of }

keys-get :
    (owner p : ℕ) (m : StorageMap (ℕ × ℕ) (Unit {0}))
    → Memᴰ p (keys_of owner m)
    → get (owner, p) m ≡ some tt
unfolding get
keys-get owner p [] h = elim h [ ]
keys-get owner p (((a, q), u) ∷ m) h = elim (Bool-cases (a == owner)) [
  | inr e ↦ ground (arith, keys-get owner p m (rw e at h))
  | inl e ↦
      let listed : Memᴰ p (q ∷ keys_of owner m) = rw e at h in
      elim (Memᴰ.cases_cons listed) [
        | inl here ↦ ground arith
        | inr later ↦ ground (arith, keys-get owner p m later)
      ]
]

get-keys :
    (owner p : ℕ) (m : StorageMap (ℕ × ℕ) (Unit {0}))
    → get (owner, p) m ≡ some tt
    → Memᴰ p (keys_of owner m)
unfolding get
get-keys owner p [] h = cc
get-keys owner p (((a, q), u) ∷ m) h = elim (Bool-cases (a == owner)) [
  | inr e ↦ rw e (get-keys owner p m (ground arith))
  | inl e ↦ rw e (elim (Bool-cases (q == p)) [
    | inl hit ↦ Memᴰ.head (ground arith)
    | inr miss ↦ Memᴰ.tail (get-keys owner p m (ground arith))
  ])
]

Option_Unit_set : IsSet (Option (Unit {0}))
Option_Unit_set = hlevel

get-prop : (owner p : ℕ) (m : StorageMap (ℕ × ℕ) (Unit {0})) → IsProp (get (owner, p) m ≡ some tt)
get-prop owner p m = Option_Unit_set _ _

pub order_laws : IterationLaws order
order_laws = record {
  iter_log-perm = λ m. Perm.refl m;
  mem-iter_prefix = λ owner p m.
      (λ h. ∥∥₁_elim h (get-prop owner p m) (keys-get owner p m), λ h. ∣ get-keys owner p m h ∣₁);
}
