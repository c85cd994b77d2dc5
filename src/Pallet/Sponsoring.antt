-- ===== src/Pallet/Sponsoring.antt =====
-- `sponsor_transaction`: when it succeeds, what it charges, and what a failure leaves behind.
use mathlib.Core.Logic.{∥∥₁_elim}
use gas_leap.Base.{
  ℕ, ◌≤◌, ◌≡◌, ◌↔◌, inl, inr, List, ◌∷◌, true, false, some, ok, err, arith, nat_eq, contains,
  Option-cases, Result-cases, u64_max, saturating_add, le→leb,
}
use gas_leap.Base.StorageMap.{get, insert}
use gas_leap.Types.{
  PoolStatus, PoolInfo, TransactionStatus, module_error, chain_not_supported, DispatchError,
  transaction_sponsored,
}
use gas_leap.Gateway.{dispatching, updating_status, dispatched}
use gas_leap.Gateway.Message.{is_supported_parachain}
use gas_leap.Gateway.Fee.{estimate_fee}
use gas_leap.Gateway.Delivery.{is_sendable, send_lem}
use gas_leap.Gateway.Tables.{tables_agree}
use gas_leap.Frame.{Frame}
use gas_leap.Pallet.{World, sponsor_transaction, recorded}
use gas_leap.Pallet.Change.{charge, new_record}

module _ {Ledger Origin : Type 0} (frame : Frame Ledger Origin) (origin : Origin)
    (pool_id target : ℕ) (call_data : List ℕ) (w : World Ledger) where
  -- The pool can pay for the transaction.
  pub record IsPayable (who : ℕ) (info : PoolInfo) (fee : ℕ) : Type 0 where
    pub signed : frame.ensure_signed origin ≡ some who
    pub found : get pool_id w.pools ≡ some info
    pub active : info.status ≡ PoolStatus.active
    pub allowed : contains info.config.allowed_chains target ≡ true
    pub priced : estimate_fee target call_data ≡ ok fee
    pub covered : fee ≤ info.balance

  -- A priced target is one that the gateway sends to.
  pub priced-supported :
      (fee : ℕ) → estimate_fee target call_data ≡ ok fee → is_supported_parachain target ≡ true
  priced-supported fee h = ground (arith, tables_agree target call_data)

  pub IsPayable-sponsors :
      (who : ℕ) (info : PoolInfo) (fee : ℕ)
      → IsPayable who info fee
      → is_sendable call_data ≡ true
      → (sponsor_transaction frame origin pool_id target call_data w).0 ≡ ok tt
  unfolding sponsor_transaction
  IsPayable-sponsors who info fee h sendable = ground (
    arith,
    priced-supported fee h.priced,
    le→leb fee info.balance h.covered,
    send_lem frame.hash w.block_number pool_id who target call_data w.next_transaction_id w.lines,
  )

  pub sponsor_transaction-IsPayable :
      (sponsor_transaction frame origin pool_id target call_data w).0 ≡ ok tt
      → (who : ℕ) × (info : PoolInfo) × (fee : ℕ) × IsPayable who info fee
        × (is_sendable call_data ≡ true)
  unfolding sponsor_transaction
  sponsor_transaction-IsPayable h = elim (Option-cases (frame.ensure_signed origin)) [
    | inl e ↦ absurd (ground arith)
    | inr (who, s) ↦ elim (Option-cases (get pool_id w.pools)) [
      | inl e ↦ absurd (ground arith)
      | inr (info, g) ↦ elim (Result-cases (estimate_fee target call_data)) [
        | inr (d, f) ↦ absurd (ground arith)
        | inl (fee, f) ↦ (
          who,
          info,
          fee,
          record {
            signed = s;
            found = g;
            active = ground arith;
            allowed = ground arith;
            priced = f;
            covered = ground arith;
          },
          ground (
            arith,
            priced-supported fee f,
            send_lem frame.hash w.block_number pool_id who target call_data w.next_transaction_id
                w.lines,
          ),
        )
      ]
    ]
  ]

  -- Sponsoring succeeds exactly when the origin is signed, the pool exists and is active, its
  -- configuration allows the chain, the chain has a fee, the balance covers the fee, and the call
  -- data has 1 to 1024 bytes. Who signed, the authorization rules and the limits of the
  -- configuration play no part.
  pub sponsor_iff :
      ((sponsor_transaction frame origin pool_id target call_data w).0 ≡ ok tt)
      ↔ ∥ (
          (who : ℕ) × (info : PoolInfo) × (fee : ℕ) × IsPayable who info fee
          × (is_sendable call_data ≡ true)) ∥₁
  sponsor_iff = (
    λ h. ∣ sponsor_transaction-IsPayable h ∣₁,
    λ t. ∥∥₁_elim t (hlevel) (λ h. IsPayable-sponsors h.0 h.1 h.2 h.3 h.4),
  )

  -- What a sponsored transaction does: the pool pays the fee from its balance and adds it to what
  -- it has spent; the record is logged under the next id, as pending; the counter moves on; the
  -- event and the three lines of the dispatch are added; the currency and all else stay.
  pub sponsor_effect :
      (who : ℕ) (info : PoolInfo) (fee : ℕ)
      → IsPayable who info fee
      → is_sendable call_data ≡ true
      → (sponsor_transaction frame origin pool_id target call_data w).1 ≡ record {
        storage = record w.storage {
          pools = insert pool_id (charge frame info fee) w.pools;
          transaction_log =
              insert w.next_transaction_id
                (new_record frame w.storage pool_id who target call_data fee)
                w.transaction_log;
          next_transaction_id = saturating_add u64_max w.next_transaction_id 1;
          events =
              recorded w.block_number
                (transaction_sponsored w.next_transaction_id pool_id who target fee)
                w.events;
        };
        lines =
            dispatched w.next_transaction_id target
            ∷ updating_status w.next_transaction_id TransactionStatus.dispatched
            ∷ dispatching target w.next_transaction_id
            ∷ w.lines;
      }
  unfolding sponsor_transaction
  sponsor_effect who info fee h sendable = ground (
    arith,
    priced-supported fee h.priced,
    le→leb fee info.balance h.covered,
    send_lem frame.hash w.block_number pool_id who target call_data w.next_transaction_id w.lines,
  )

  -- With call data of 1 to 1024 bytes, a body that fails has changed nothing.
  pub sponsor_clean_failure :
      (e : DispatchError)
      → is_sendable call_data ≡ true
      → (sponsor_transaction frame origin pool_id target call_data w).0 ≡ err e
      → (sponsor_transaction frame origin pool_id target call_data w).1 ≡ w
  unfolding sponsor_transaction
  sponsor_clean_failure e sendable h = elim (Option-cases (frame.ensure_signed origin)) [
    | inl s ↦ ground arith
    | inr (who, s) ↦ elim (Result-cases (estimate_fee target call_data)) [
      | inr (d, f) ↦ ground arith
      | inl (fee, f) ↦ ground (
        arith,
        priced-supported fee f,
        send_lem frame.hash w.block_number pool_id who target call_data w.next_transaction_id
            w.lines,
      )
    ]
  ]

  -- If the pool can pay but the call data is empty or longer than 1024 bytes, the body fails with
  -- `ChainNotSupported` after it has charged the pool, logged the record and moved the counter on:
  -- it rests on the storage layer alone that this is taken back.
  pub sponsor_dirty_failure :
      (who : ℕ) (info : PoolInfo) (fee : ℕ)
      → IsPayable who info fee
      → is_sendable call_data ≡ false
      → sponsor_transaction frame origin pool_id target call_data w ≡ (
        err (module_error chain_not_supported),
        record w {
          storage = record w.storage {
            pools = insert pool_id (charge frame info fee) w.pools;
            transaction_log =
                insert w.next_transaction_id
                  (new_record frame w.storage pool_id who target call_data fee)
                  w.transaction_log;
            next_transaction_id = saturating_add u64_max w.next_transaction_id 1;
          };
        },
      )
  unfolding sponsor_transaction
  sponsor_dirty_failure who info fee h bad = ground (
    arith,
    priced-supported fee h.priced,
    le→leb fee info.balance h.covered,
    send_lem frame.hash w.block_number pool_id who target call_data w.next_transaction_id w.lines,
  )
