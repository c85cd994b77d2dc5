-- ===== src/Pallet/Abstract/Charging.antt =====
-- `create_pool`, `fund_pool` and `sponsor_transaction`, in the abstract, after an edit of another pool.
use gas_leap.Base.{
  ℕ, ◌≡◌, ◌≢◌, refl, Option-cases, Result-cases, Bool-cases, inl, inr, List, nat_eq, pair_eq, some,
  ok, ap, sym, replace_err, leb, contains, saturating_add, u128_max, u32_max, u64_max,
}
use gas_leap.Types.{
  PoolStatus, TransactionStatus, pool_paused, chain_not_supported, insufficient_funds, PoolInfo,
  PoolConfig, bad_origin, module_error, pool_not_found, type_eq, is_active,
}
use gas_leap.Base.Results.{◌>>=◌, ◌>>◌}
use gas_leap.Gateway.Fee.{estimate_fee}
use gas_leap.Gateway.Delivery.{is_sendable}
use gas_leap.Frame.{Frame}
use gas_leap.Pallet.Change.{charge}
use gas_leap.Pallet.History.{Call}
use gas_leap.Pallet.Abstract.{View, put, verdict, owned, payment, require, check}
use gas_leap.Pallet.Abstract.Editing.{Edit, edit, unordered-edit}
use gas_leap.Pallet.Abstract.Following.{
  Follows, touches, owned-edit, update_pool_config-Follows, add_authorization_rule-Follows,
  remove_authorization_rule-Follows, process_receipt-Follows,
}

module _ {Ledger Origin : Type 0} (frame : Frame Ledger Origin) (o : Origin) (v : View Ledger)
    {p : ℕ} (e : Edit p) where
  create_pool-Follows :
      (deposit : ℕ) (config : PoolConfig)
      → p ≢ v.next_pool_id
      → Follows e
          (verdict frame o (Call.create_pool deposit config) v)
          (verdict frame o (Call.create_pool deposit config) (edit e v))
  create_pool-Follows deposit config ne = elim (Option-cases (frame.ensure_signed o)) [
    | inl s ↦ rw s refl
    | inr (who, s) ↦ elim (Bool-cases (leb frame.min_pool_deposit deposit)) [
      | inr small ↦ rw (s, small) refl
      | inl enough ↦ elim (Result-cases (frame.reserve who deposit v.ledger)) [
        | inr (x, r) ↦ rw (s, enough, r) refl
        | inl (l, r) ↦
            rw (s, enough, r)
              (
                _,
                refl,
                let pool : PoolInfo = record {
                  owner = who;
                  balance = deposit;
                  total_spent = 0;
                  created_at = v.block_number;
                  config = config;
                  status = PoolStatus.active;
                } in
                    unordered-edit e
                      (record v {
                        ledger = l;
                        pools = put v.next_pool_id pool v.pools;
                        next_pool_id = saturating_add u32_max v.next_pool_id 1;
                        pool_owners = put (who, v.next_pool_id) tt v.pool_owners;
                      })
                      _ v.events (e.pools_put v.pools v.next_pool_id pool ne) refl,
              )
      ]
    ]
  ]

  fund_pool-Follows :
      (q amount : ℕ)
      → p ≢ q
      → Follows e
          (verdict frame o (Call.fund_pool q amount) v)
          (verdict frame o (Call.fund_pool q amount) (edit e v))
  fund_pool-Follows q amount ne = elim (Result-cases (owned frame o q v)) [
    | inr (x, h) ↦ rw (owned-edit frame o v e q ne, h) refl
    | inl (info, h) ↦ elim (Bool-cases (is_active info.status)) [
      | inr paused ↦ rw (owned-edit frame o v e q ne, h, paused) refl
      | inl active ↦ elim (Result-cases (frame.reserve info.owner amount v.ledger)) [
        | inr (x, r) ↦ rw (owned-edit frame o v e q ne, h, active, r) refl
        | inl (l, r) ↦
            rw (owned-edit frame o v e q ne, h, active, r)
              (
                _,
                refl,
                let pool : PoolInfo = record info {
                  balance = saturating_add u128_max info.balance amount;
                } in
                    unordered-edit e (record v { ledger = l; pools = put q pool v.pools }) _
                      v.events (e.pools_put v.pools q pool ne) refl,
              )
      ]
    ]
  ]

  payment-edit :
      (q target : ℕ) (call_data : List ℕ)
      → p ≢ q
      → payment frame o q target call_data (edit e v) ≡ payment frame o q target call_data v
  payment-edit q target call_data ne =
      ap
        (λ found. do
          who ← require (frame.ensure_signed o) bad_origin
          info ← require found (module_error pool_not_found)
          check (is_active info.status) (module_error pool_paused)
          check (contains info.config.allowed_chains target) (module_error chain_not_supported)
          fee ← replace_err (module_error chain_not_supported) (estimate_fee target call_data)
          check (leb fee info.balance) (module_error insufficient_funds)
          check (is_sendable call_data) (module_error chain_not_supported)
          ok (who, info, fee))
        (e.pools_elsewhere v.pools q ne)

  sponsor_transaction-Follows :
      (q target : ℕ) (call_data : List ℕ)
      → p ≢ q
      → Follows e
          (verdict frame o (Call.sponsor_transaction q target call_data) v)
          (verdict frame o (Call.sponsor_transaction q target call_data) (edit e v))
  sponsor_transaction-Follows q target call_data ne =
      elim (Result-cases (payment frame o q target call_data v)) [
        | inr (x, h) ↦ rw (payment-edit q target call_data ne, h) refl
        | inl ((who, info, fee), h) ↦
            rw (payment-edit q target call_data ne, h)
              (
                _,
                refl,
                let pool : PoolInfo = charge frame info fee in
                    unordered-edit e
                      (record v {
                        pools = put q pool v.pools;
                        transaction_log =
                            put v.next_transaction_id
                              (record {
                                id = v.next_transaction_id;
                                pool_id = q;
                                user = who;
                                target_chain = target;
                                call_hash = frame.hash call_data;
                                gas_cost = fee;
                                status = TransactionStatus.pending;
                                timestamp = v.block_number;
                              })
                              v.transaction_log;
                        next_transaction_id = saturating_add u64_max v.next_transaction_id 1;
                      })
                      _ v.events (e.pools_put v.pools q pool ne) refl,
              )
      ]

  pub verdict-Follows :
      (c : Call)
      → touches c v.next_pool_id ≢ some p
      → Follows e (verdict frame o c v) (verdict frame o c (edit e v))
  verdict-Follows (Call.create_pool deposit config) ne =
      create_pool-Follows deposit config (λ h. ne (ap some (sym h)))
  verdict-Follows (Call.fund_pool q amount) ne =
      fund_pool-Follows q amount (λ h. ne (ap some (sym h)))
  verdict-Follows (Call.update_pool_config q config) ne =
      update_pool_config-Follows frame o v e q config (λ h. ne (ap some (sym h)))
  verdict-Follows (Call.add_authorization_rule q rule) ne =
      add_authorization_rule-Follows frame o v e q rule (λ h. ne (ap some (sym h)))
  verdict-Follows (Call.remove_authorization_rule q t) ne =
      remove_authorization_rule-Follows frame o v e q t (λ h. ne (ap some (sym h)))
  verdict-Follows (Call.sponsor_transaction q target call_data) ne =
      sponsor_transaction-Follows q target call_data (λ h. ne (ap some (sym h)))
  verdict-Follows (Call.process_receipt r) ne = process_receipt-Follows frame o v e r
