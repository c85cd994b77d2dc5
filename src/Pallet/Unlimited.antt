-- ===== src/Pallet/Unlimited.antt =====
-- `sponsor_transaction` under other limits: those of a pool's configuration, the authorization rules
-- and the spending of users.
use gas_leap.Base.{
  ℕ, ◌≡◌, List, Bool, Option, none, some, Result, ok, err, arith, nat_eq, Option-cases,
  Result-cases, if◌then◌else◌, leb, sym, ◌∙◌, ◌&&◌, contains, inl, inr,
}
use gas_leap.Base.StorageMap.{StorageMap, get, insert, get-insert_self}
use gas_leap.Types.{
  PoolInfo, AuthorizationType, AuthorizationRule, SpendingInfo, is_active, module_error,
  chain_not_supported, insufficient_funds, pool_paused, DispatchError,
}
use gas_leap.Gateway.Fee.{estimate_fee}
use gas_leap.Gateway.Send.{send_cross_chain_transaction}
use gas_leap.Frame.{Frame}
use gas_leap.Pallet.Change.{charge}
use gas_leap.Pallet.{World, sponsor_transaction, book_transaction}

-- Everything that is meant to restrict what a pool pays for.
pub record Limits : Type 0 where
  pub max_transaction_value : ℕ
  pub daily_spending_limit : ℕ
  pub authorization_required : Bool
  pub pool_authorizations : StorageMap (ℕ × AuthorizationType) AuthorizationRule
  pub user_spending : StorageMap (ℕ × ℕ) SpendingInfo

-- A pool with other limits, and a world where the pool `p` has them.
abbrev pub restrict : Limits → PoolInfo → PoolInfo
restrict limits info = record info {
  config = record info.config {
    max_transaction_value = limits.max_transaction_value;
    daily_spending_limit = limits.daily_spending_limit;
    authorization_required = limits.authorization_required;
  };
}

abbrev pub limited : {Ledger : Type 0} → Limits → ℕ → PoolInfo → World Ledger → World Ledger
limited limits p info w = record w {
  storage = record w.storage {
    pools = insert p (restrict limits info) w.pools;
    pool_authorizations = limits.pool_authorizations;
    user_spending = limits.user_spending;
  };
}

-- What a pool has left and what it has spent.
abbrev pub account_of : Option PoolInfo → ℕ × ℕ
account_of none = (0, 0)
account_of (some info) = (info.balance, info.total_spent)

module _ {Ledger Origin : Type 0} (frame : Frame Ledger Origin) (o : Origin) (p target : ℕ)
    (call_data : List ℕ) where
  -- What a pool needs to pay this fee.
  abbrev pays : PoolInfo → ℕ → Bool
  pays info fee =
      is_active info.status && contains info.config.allowed_chains target && leb fee info.balance

  outcome : PoolInfo → (who fee : ℕ) → World Ledger → Result DispatchError (Unit {0})
  outcome info who fee w =
      if is_active info.status
      then if contains info.config.allowed_chains target
        then if leb fee info.balance
          then (elim (send_cross_chain_transaction frame.hash w.block_number p who target call_data
              w.next_transaction_id w.lines).0 [
                | ok u ↦ ok tt
                | err e ↦ err (module_error chain_not_supported)
              ])
          else err (module_error insufficient_funds)
        else err (module_error chain_not_supported)
      else err (module_error pool_paused)

  sponsor_transaction-outcome :
      (w : World Ledger) (who fee : ℕ) (info : PoolInfo)
      → frame.ensure_signed o ≡ some who
      → estimate_fee target call_data ≡ ok fee
      → get p w.pools ≡ some info
      → (sponsor_transaction frame o p target call_data w).0 ≡ outcome info who fee w
  unfolding sponsor_transaction book_transaction outcome
  sponsor_transaction-outcome w who fee info s f g = ground arith

  sponsor_transaction-account :
      (w : World Ledger) (who fee : ℕ) (info : PoolInfo)
      → frame.ensure_signed o ≡ some who
      → estimate_fee target call_data ≡ ok fee
      → get p w.pools ≡ some info
      → account_of (get p (sponsor_transaction frame o p target call_data w).1.pools)
        ≡ account_of (some (if pays info fee then charge frame info fee else info))
  unfolding sponsor_transaction book_transaction
  sponsor_transaction-account w who fee info s f g =
      ground (arith, get-insert_self p (charge frame info fee) w.pools)

  same_when_priced :
      (w : World Ledger) (who fee : ℕ) (info : PoolInfo) (limits : Limits)
      → frame.ensure_signed o ≡ some who
      → estimate_fee target call_data ≡ ok fee
      → get p w.pools ≡ some info
      → let (r, w') = sponsor_transaction frame o p target call_data w in
        let (r', w2) = sponsor_transaction frame o p target call_data (limited limits p info w) in
        (r' ≡ r) × (account_of (get p w2.pools) ≡ account_of (get p w'.pools))
  unfolding outcome
  same_when_priced w who fee info limits s f g =
      let here = get-insert_self p (restrict limits info) w.pools in
      let other = limited limits p info w in
      let same : account_of (
            some (
              if pays info fee
              then charge frame (restrict limits info) fee
              else restrict limits info))
          ≡ account_of (some (if pays info fee then charge frame info fee else info)) =
        ground arith in
      (
        sponsor_transaction-outcome other who fee (restrict limits info) s f here
            ∙ sym (sponsor_transaction-outcome w who fee info s f g),
        sponsor_transaction-account other who fee (restrict limits info) s f here
            ∙ same
            ∙ sym (sponsor_transaction-account w who fee info s f g),
      )

  -- Whatever limits a pool is given, whatever rules it has and whatever its users have spent: a call
  -- of `sponsor_transaction` ends with the same result, and the pool's balance and its total spending
  -- come out the same.
  pub sponsor_ignores_limits :
      (w : World Ledger) (info : PoolInfo) (limits : Limits)
      → get p w.pools ≡ some info
      → let (r, w') = sponsor_transaction frame o p target call_data w in
        let (r', w2) = sponsor_transaction frame o p target call_data (limited limits p info w) in
        (r' ≡ r) × (account_of (get p w2.pools) ≡ account_of (get p w'.pools))
  unfolding sponsor_transaction
  sponsor_ignores_limits w info limits g =
      let here = get-insert_self p (restrict limits info) w.pools in
      elim (Option-cases (frame.ensure_signed o)) [
        | inl s ↦ (ground arith, ground arith)
        | inr (who, s) ↦ elim (Result-cases (estimate_fee target call_data)) [
          | inr (d, f) ↦ (ground arith, ground arith)
          | inl (fee, f) ↦ same_when_priced w who fee info limits s f g
        ]
      ]
