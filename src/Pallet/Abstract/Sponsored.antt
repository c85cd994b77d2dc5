-- ===== src/Pallet/Abstract/Sponsored.antt =====
-- `sponsor_transaction` of pallets/sponsorship/src/lib.rs against its abstract call.
use gas_leap.Base.{
  ℕ, ◌≡◌, ap, arith, Option-cases, Result-cases, inl, inr, List, nat_eq, pair_eq, ok, err, refl,
  saturating_add, u64_max, if◌then◌else◌, le→leb, Bool-cases, contains, leb,
}
use gas_leap.Base.StorageMap.{get}
use gas_leap.Types.{
  is_active, module_error, chain_not_supported, PoolInfo, transaction_sponsored, type_eq,
}
use gas_leap.Frame.{Frame}
use gas_leap.Pallet.{World, sponsor_transaction, recorded}
use gas_leap.Gateway.Fee.{estimate_fee}
use gas_leap.Gateway.Delivery.{is_sendable}
use gas_leap.Pallet.Change.{charge, new_record}
use gas_leap.Pallet.Sponsoring.{
  IsPayable, IsPayable-sponsors, sponsor_effect, sponsor_dirty_failure,
}
use gas_leap.Pallet.History.{Call}
use gas_leap.Pallet.Abstract.{View, look, view, put, verdict}
use gas_leap.Pallet.Abstract.Agreement.{Agrees, look-insert}

module _ {Ledger Origin : Type 0} (frame : Frame Ledger Origin) (o : Origin)
    (w : World Ledger) where
  -- What a sponsored transaction writes, in the abstract.
  abbrev sponsored_view : (p who target : ℕ) → List ℕ → ℕ → PoolInfo → View Ledger
  sponsored_view p who target call_data fee info = record (view w.storage) {
    pools = put p (charge frame info fee) (look w.pools);
    transaction_log =
        put w.next_transaction_id (new_record frame w.storage p who target call_data fee)
          (look w.transaction_log);
    next_transaction_id = saturating_add u64_max w.next_transaction_id 1;
    events =
        recorded w.block_number (transaction_sponsored w.next_transaction_id p who target fee)
          w.events;
  }

  verdict-IsPayable :
      (p target : ℕ) (call_data : List ℕ) (who : ℕ) (info : PoolInfo) (fee : ℕ)
      → IsPayable frame o p target call_data w who info fee
      → verdict frame o (Call.sponsor_transaction p target call_data) (view w.storage) ≡ (
          if is_sendable call_data
          then ok (sponsored_view p who target call_data fee info)
          else err (module_error chain_not_supported))
  verdict-IsPayable p target call_data who info fee h =
      rw
        (
          h.signed,
          h.found,
          ap is_active h.active,
          h.allowed,
          h.priced,
          le→leb fee info.balance h.covered,
        )
        (elim (Bool-cases (is_sendable call_data)) [
          | inl good ↦ rw good refl
          | inr bad ↦ rw bad refl
        ])

  -- A pool that can pay, pays for call data that can be sent, and for no other.
  IsPayable-Agrees :
      (p target : ℕ) (call_data : List ℕ) (who : ℕ) (info : PoolInfo) (fee : ℕ)
      → IsPayable frame o p target call_data w who info fee
      → Agrees
          (sponsor_transaction frame o p target call_data w)
          (verdict frame o (Call.sponsor_transaction p target call_data) (view w.storage))
  IsPayable-Agrees p target call_data who info fee h = elim (Bool-cases (is_sendable call_data)) [
    | inr bad ↦
        rw
          (
            verdict-IsPayable p target call_data who info fee h,
            sponsor_dirty_failure frame o p target call_data w who info fee h bad,
            bad,
          )
          refl
    | inl good ↦
        rw (verdict-IsPayable p target call_data who info fee h, good)
          (
            IsPayable-sponsors frame o p target call_data w who info fee h good,
            rw
                (
                  sponsor_effect frame o p target call_data w who info fee h good,
                  look-insert p (charge frame info fee) w.pools,
                  look-insert w.next_transaction_id
                      (new_record frame w.storage p who target call_data fee) w.transaction_log,
                )
                refl,
          )
  ]

  pub sponsor_transaction-Agrees :
      (p target : ℕ) (call_data : List ℕ)
      → Agrees
          (sponsor_transaction frame o p target call_data w)
          (verdict frame o (Call.sponsor_transaction p target call_data) (view w.storage))
  unfolding sponsor_transaction
  sponsor_transaction-Agrees p target call_data = elim (Option-cases (frame.ensure_signed o)) [
    | inl s ↦ ground arith
    | inr (who, s) ↦ elim (Option-cases (get p w.pools)) [
      | inl g ↦ ground arith
      | inr (info, g) ↦ elim (Bool-cases (is_active info.status)) [
        | inr a ↦ ground arith
        | inl a ↦ elim (Bool-cases (contains info.config.allowed_chains target)) [
          | inr b ↦ ground arith
          | inl b ↦ elim (Result-cases (estimate_fee target call_data)) [
            | inr (d, f) ↦ ground arith
            | inl (fee, f) ↦ elim (Bool-cases (leb fee info.balance)) [
              | inr c ↦ ground arith
              | inl c ↦ IsPayable-Agrees p target call_data who info fee (record {
                signed = s;
                found = g;
                active = ground arith;
                allowed = b;
                priced = f;
                covered = ground arith;
              })
            ]
          ]
        ]
      ]
    ]
  ]
