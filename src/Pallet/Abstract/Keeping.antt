-- ===== src/Pallet/Abstract/Keeping.antt =====
-- What a call, in the abstract, leaves of a pool that it is not on.
use gas_leap.Base.{
  ℕ, ◌≡◌, ◌≢◌, refl, Option-cases, Result-cases, Bool-cases, inl, inr, nat_eq, pair_eq, some,
  Result, ok, err, ap, ◌==◌, leb,
}
use gas_leap.Base.Results.{◌>>=◌, ◌>>◌}
use gas_leap.Types.{
  type_eq, DispatchError, bad_origin, module_error, pool_not_found, not_pool_owner, is_active,
}
use gas_leap.Gateway.Settling.{is_blank}
use gas_leap.Frame.{Frame}
use gas_leap.Pallet.History.{Call}
use gas_leap.Pallet.Abstract.{View, verdict, owned, payment, require, check, reserved}
use gas_leap.Pallet.Abstract.Editing.{put_other}
use gas_leap.Pallet.Abstract.Following.{touches}

-- A call leaves pool `p` as it was.
abbrev pub Keeps : {Ledger : Type 0} → ℕ → View Ledger → Result DispatchError (View Ledger) → Type 0
Keeps p v (ok v') = v'.pools p ≡ v.pools p
Keeps p v (err x) = Unit

module _ {Ledger Origin : Type 0} (frame : Frame Ledger Origin) (o : Origin) where
  pub owned-keep :
      (p : ℕ) (v v' : View Ledger) → v'.pools p ≡ v.pools p → owned frame o p v' ≡ owned frame o p v
  owned-keep p v v' h =
      ap
        (λ found. do
          who ← require (frame.ensure_signed o) bad_origin
          info ← require found (module_error pool_not_found)
          check (info.owner == who) (module_error not_pool_owner)
          ok info)
        h

  pub verdict-Keeps :
      (p : ℕ) (c : Call) (v : View Ledger)
      → touches c v.next_pool_id ≢ some p
      → Keeps p v (verdict frame o c v)
  verdict-Keeps p (Call.create_pool deposit config) v ne =
      elim (Option-cases (frame.ensure_signed o)) [
        | inl s ↦ rw s tt
        | inr (who, s) ↦ elim (Bool-cases (leb frame.min_pool_deposit deposit)) [
          | inr small ↦ rw (s, small) tt
          | inl enough ↦ elim (Result-cases (reserved frame who deposit v)) [
            | inr (x, r) ↦ rw (s, enough, r) tt
            | inl (l, r) ↦
                rw (s, enough, r) (put_other v.next_pool_id p _ v.pools (λ h. ne (ap some h)))
          ]
        ]
      ]
  verdict-Keeps p (Call.fund_pool q amount) v ne = elim (Result-cases (owned frame o q v)) [
    | inr (x, h) ↦ rw h tt
    | inl (info, h) ↦ elim (Bool-cases (is_active info.status)) [
      | inr paused ↦ rw (h, paused) tt
      | inl active ↦ elim (Result-cases (reserved frame info.owner amount v)) [
        | inr (x, r) ↦ rw (h, active, r) tt
        | inl (l, r) ↦ rw (h, active, r) (put_other q p _ v.pools (λ h. ne (ap some h)))
      ]
    ]
  ]
  verdict-Keeps p (Call.update_pool_config q config) v ne =
      elim (Result-cases (owned frame o q v)) [
        | inr (x, h) ↦ rw h tt
        | inl (info, h) ↦ rw h (put_other q p _ v.pools (λ h. ne (ap some h)))
      ]
  verdict-Keeps p (Call.add_authorization_rule q rule) v ne =
      elim (Result-cases (owned frame o q v)) [ inr (x, h) ↦ rw h tt | inl (info, h) ↦ rw h refl ]
  verdict-Keeps p (Call.remove_authorization_rule q t) v ne =
      elim (Result-cases (owned frame o q v)) [ inr (x, h) ↦ rw h tt | inl (info, h) ↦ rw h refl ]
  verdict-Keeps p (Call.sponsor_transaction q target call_data) v ne =
      elim (Result-cases (payment frame o q target call_data v)) [
        | inr (x, h) ↦ rw h tt
        | inl ((who, info, fee), h) ↦ rw h (put_other q p _ v.pools (λ h. ne (ap some h)))
      ]
  verdict-Keeps p (Call.process_receipt r) v ne = elim (Option-cases (frame.ensure_signed o)) [
    | inl s ↦ rw s tt
    | inr (who, s) ↦ elim (Bool-cases (is_blank r)) [
      | inl blank ↦ rw (s, blank) tt
      | inr filled ↦ rw (s, filled) refl
    ]
  ]
