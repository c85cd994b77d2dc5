-- ===== src/Pallet/Abstract/Observing.antt =====
-- What a call, in the abstract, makes of the events before it.
use mathlib.Core.List.Perm
use mathlib.Core.Quot
use mathlib.Core.Quot.{Quot, Quot-set}
use gas_leap.Base.{
  ℕ, ◌==◌, saturating_add, u128_max, ◌≡◌, refl, Option-cases, Result-cases, Bool-cases, inl, inr,
  List, [], ◌++◌, Result, ok, err, ap, sym, ◌∙◌, leb,
}
use gas_leap.Base.Results.{◌>>=◌}
use gas_leap.Types.{DispatchError, Event, is_active}
use gas_leap.Gateway.Settling.{is_blank}
use gas_leap.Frame.{Frame}
use gas_leap.Pallet.{recorded}
use gas_leap.Types.{
  pool_created, pool_funded, pool_config_updated, authorization_rule_added,
  authorization_rule_removed, transaction_sponsored,
}
use gas_leap.Pallet.History.{Call}
use gas_leap.Pallet.Abstract.{View, verdict, owned, payment, reserved, perform, settled}
use gas_leap.Pallet.Abstract.Editing.{Bag, unordered}

abbrev hushed : {Ledger : Type 0} → View Ledger → View Ledger
hushed v = record v { events = [] }

-- With these events before its own.
abbrev after : {Ledger : Type 0} → List Event → View Ledger → View Ledger
after es v = record v { events = v.events ++ es }

abbrev before : List Event → Bag → Bag
before new =
    Quot.lift Quot-set (λ es. Quot.mk (new ++ es)) λ es es' h. Quot.sound (Perm.append_left new h)

recorded-append :
    (block : ℕ) (event : Event) (es : List Event)
    → recorded block event es ≡ recorded block event [] ++ es
unfolding recorded
recorded-append block event es = elim (Bool-cases (block == 0)) [
  | inl zero ↦ rw zero refl
  | inr later ↦ rw later refl
]

module _ {Ledger Origin : Type 0} (frame : Frame Ledger Origin) (o : Origin) where
  verdict-after :
      (c : Call) (v : View Ledger)
      → verdict frame o c v ≡ (verdict frame o c (hushed v) >>= λ v'. ok (after v.events v'))
  verdict-after (Call.create_pool deposit config) v = elim (Option-cases (frame.ensure_signed o)) [
    | inl s ↦ rw s refl
    | inr (who, s) ↦ elim (Bool-cases (leb frame.min_pool_deposit deposit)) [
      | inr small ↦ rw (s, small) refl
      | inl enough ↦ elim (Result-cases (reserved frame who deposit v)) [
        | inr (x, r) ↦ rw (s, enough, r) refl
        | inl (l, r) ↦
            rw
              (
                s,
                enough,
                r,
                recorded-append v.block_number (pool_created v.next_pool_id who deposit) v.events,
              )
              refl
      ]
    ]
  ]
  verdict-after (Call.fund_pool q amount) v = elim (Result-cases (owned frame o q v)) [
    | inr (x, h) ↦ rw h refl
    | inl (info, h) ↦ elim (Bool-cases (is_active info.status)) [
      | inr paused ↦ rw (h, paused) refl
      | inl active ↦ elim (Result-cases (reserved frame info.owner amount v)) [
        | inr (x, r) ↦ rw (h, active, r) refl
        | inl (l, r) ↦
            rw
              (
                h,
                active,
                r,
                recorded-append v.block_number
                    (pool_funded q amount (saturating_add u128_max info.balance amount)) v.events,
              )
              refl
      ]
    ]
  ]
  verdict-after (Call.update_pool_config q config) v = elim (Result-cases (owned frame o q v)) [
    | inr (x, h) ↦ rw h refl
    | inl (info, h) ↦
        rw (h, recorded-append v.block_number (pool_config_updated q info.owner) v.events) refl
  ]
  verdict-after (Call.add_authorization_rule q rule) v = elim (Result-cases (owned frame o q v)) [
    | inr (x, h) ↦ rw h refl
    | inl (info, h) ↦
        rw (h, recorded-append v.block_number (authorization_rule_added q rule.rule_type) v.events)
          refl
  ]
  verdict-after (Call.remove_authorization_rule q t) v = elim (Result-cases (owned frame o q v)) [
    | inr (x, h) ↦ rw h refl
    | inl (info, h) ↦
        rw (h, recorded-append v.block_number (authorization_rule_removed q t) v.events) refl
  ]
  verdict-after (Call.sponsor_transaction q target call_data) v =
      elim (Result-cases (payment frame o q target call_data v)) [
        | inr (x, h) ↦ rw h refl
        | inl ((who, info, fee), h) ↦
            rw
              (
                h,
                recorded-append v.block_number
                    (transaction_sponsored v.next_transaction_id q who target fee) v.events,
              )
              refl
      ]
  verdict-after (Call.process_receipt r) v = elim (Option-cases (frame.ensure_signed o)) [
    | inl s ↦ rw s refl
    | inr (who, s) ↦ elim (Bool-cases (is_blank r)) [
      | inl blank ↦ rw (s, blank) refl
      | inr filled ↦ rw (s, filled) refl
    ]
  ]

  verdict-hushed :
      (c : Call) (v : View Ledger) (r : Result DispatchError (View Ledger))
      → verdict frame o c (hushed v) ≡ r
      → verdict frame o c v ≡ (r >>= λ v'. ok (after v.events v'))
  verdict-hushed c v r h = verdict-after c v ∙ ap (λ b. b >>= λ v'. ok (after v.events v')) h

  -- Views that differ in the order of their events stay so, and a call gives both the same result.
  pub perform-unordered :
      (c : Call) (v v' : View Ledger)
      → unordered v ≡ unordered v'
      → ((perform frame o c v).0 ≡ (perform frame o c v').0)
        × (unordered (perform frame o c v).1 ≡ unordered (perform frame o c v').1)
  perform-unordered c v v' same =
      let hushes = ap (λ x. x.0) same in
      elim (Result-cases (verdict frame o c (hushed v))) [
        | inr (x, h) ↦
            rw
              (
                ap (settled v) (verdict-hushed c v (err x) h),
                ap (settled v')
                    (verdict-hushed c v' (err x) (sym (ap (verdict frame o c) hushes) ∙ h)),
              )
              (refl, same)
        | inl (n, h) ↦
            rw
              (
                ap (settled v) (verdict-hushed c v (ok n) h),
                ap (settled v')
                    (verdict-hushed c v' (ok n) (sym (ap (verdict frame o c) hushes) ∙ h)),
              )
              (refl, ap (λ (x : View Ledger × Bag). (hushed n, before n.events x.1)) same)
      ]
