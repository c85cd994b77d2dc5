-- ===== src/Pallet/Abstract/Following.antt =====
-- The calls that manage a pool and `process_receipt`, in the abstract, after an edit of another pool.
use gas_leap.Base.{
  ℕ, ◌≡◌, ◌≢◌, refl, Option-cases, Result-cases, Bool-cases, inl, inr, nat_eq, pair_eq, Option,
  none, some, Result, ok, err, ap, ◌==◌,
}
use gas_leap.Types.{
  PoolConfig, bad_origin, module_error, pool_not_found, not_pool_owner, AuthorizationRule,
  AuthorizationType, type_eq, DispatchError,
}
use gas_leap.Base.Results.{◌>>=◌, ◌>>◌}
use gas_leap.Gateway.{TransactionReceipt}
use gas_leap.Gateway.Settling.{is_blank}
use gas_leap.Frame.{Frame}
use gas_leap.Pallet.History.{Call}
use gas_leap.Pallet.Abstract.{View, put, drop, verdict, owned, require, check}
use gas_leap.Pallet.Abstract.Editing.{Edit, edit, unordered, unordered-edit}

-- After the edit a call does what it did before it, but for the edit.
abbrev pub Follows :
    {Ledger : Type 0} {p : ℕ}
    → Edit p
    → (before after : Result DispatchError (View Ledger)) → Type 0
Follows e (ok v) after = (v' : View _) × (after ≡ ok v') × (unordered v' ≡ unordered (edit e v))
Follows e (err x) after = after ≡ err x

-- The pool that a call is about; a new pool has the next id, and a receipt has none.
abbrev pub touches : Call → ℕ → Option ℕ
touches (Call.create_pool deposit config) next_id = some next_id
touches (Call.fund_pool p amount) next_id = some p
touches (Call.update_pool_config p config) next_id = some p
touches (Call.add_authorization_rule p rule) next_id = some p
touches (Call.remove_authorization_rule p t) next_id = some p
touches (Call.sponsor_transaction p target call_data) next_id = some p
touches (Call.process_receipt r) next_id = none

module _ {Ledger Origin : Type 0} (frame : Frame Ledger Origin) (o : Origin) (v : View Ledger)
    {p : ℕ} (e : Edit p) where
  pub owned-edit : (q : ℕ) → p ≢ q → owned frame o q (edit e v) ≡ owned frame o q v
  owned-edit q ne =
      ap
        (λ found. do
          who ← require (frame.ensure_signed o) bad_origin
          info ← require found (module_error pool_not_found)
          check (info.owner == who) (module_error not_pool_owner)
          ok info)
        (e.pools_elsewhere v.pools q ne)

  pub update_pool_config-Follows :
      (q : ℕ) (config : PoolConfig)
      → p ≢ q
      → Follows e
          (verdict frame o (Call.update_pool_config q config) v)
          (verdict frame o (Call.update_pool_config q config) (edit e v))
  update_pool_config-Follows q config ne = elim (Result-cases (owned frame o q v)) [
    | inr (x, h) ↦ rw (owned-edit q ne, h) refl
    | inl (info, h) ↦
        rw (owned-edit q ne, h)
          (
            _,
            refl,
            unordered-edit e (record v { pools = put q (record info { config = config }) v.pools })
                _ v.events (e.pools_put v.pools q (record info { config = config }) ne) refl,
          )
  ]

  pub add_authorization_rule-Follows :
      (q : ℕ) (rule : AuthorizationRule)
      → p ≢ q
      → Follows e
          (verdict frame o (Call.add_authorization_rule q rule) v)
          (verdict frame o (Call.add_authorization_rule q rule) (edit e v))
  add_authorization_rule-Follows q rule ne = elim (Result-cases (owned frame o q v)) [
    | inr (x, h) ↦ rw (owned-edit q ne, h) refl
    | inl (info, h) ↦
        rw (owned-edit q ne, h)
          (
            _,
            refl,
            unordered-edit e
                (record v {
                  pool_authorizations = put (q, rule.rule_type) rule v.pool_authorizations;
                })
                _ v.events refl (e.rules_put v.pool_authorizations q rule.rule_type rule ne),
          )
  ]

  pub remove_authorization_rule-Follows :
      (q : ℕ) (t : AuthorizationType)
      → p ≢ q
      → Follows e
          (verdict frame o (Call.remove_authorization_rule q t) v)
          (verdict frame o (Call.remove_authorization_rule q t) (edit e v))
  remove_authorization_rule-Follows q t ne = elim (Result-cases (owned frame o q v)) [
    | inr (x, h) ↦ rw (owned-edit q ne, h) refl
    | inl (info, h) ↦
        rw (owned-edit q ne, h)
          (
            _,
            refl,
            unordered-edit e (record v { pool_authorizations = drop (q, t) v.pool_authorizations })
                _ v.events refl (e.rules_drop v.pool_authorizations q t ne),
          )
  ]

  pub process_receipt-Follows :
      (r : TransactionReceipt)
      → Follows e
          (verdict frame o (Call.process_receipt r) v)
          (verdict frame o (Call.process_receipt r) (edit e v))
  process_receipt-Follows r = elim (Option-cases (frame.ensure_signed o)) [
    | inl s ↦ rw s refl
    | inr (who, s) ↦ elim (Bool-cases (is_blank r)) [
      | inl blank ↦ rw (s, blank) refl
      | inr filled ↦ rw (s, filled) (_, refl, refl)
    ]
  ]
