-- ===== src/Pallet/Creation.antt =====
-- `create_pool` and `fund_pool`: when they succeed, and what they move.
use mathlib.Core.Logic.{∥∥₁_elim}
use gas_leap.Base.{
  ℕ, ◌+◌, ◌≤◌, ◌≡◌, ◌↔◌, some, ok, arith, nat_eq, pair_eq, Option-cases, Result-cases, inl, inr,
  u32_max, u128_max, saturating_add,
}
use gas_leap.Base.StorageMap.{get, get-insert_self, le-sum_by}
use gas_leap.Types.{PoolInfo, PoolConfig}
use gas_leap.Frame.{Frame, CurrencyLaws}
use gas_leap.Pallet.{World, create_pool, fund_pool}
use gas_leap.Pallet.Change.{new_pool}
use gas_leap.Pallet.Solvency.{IsSolvent, backing}

module _ {Ledger Origin : Type 0} (frame : Frame Ledger Origin) (o : Origin)
    (w : World Ledger) where
  -- A pool is created exactly when the origin is signed, the deposit reaches the minimum, and the
  -- currency reserves it. How many pools the account has plays no part.
  pub create_iff :
      (deposit : ℕ) (config : PoolConfig)
      → ((create_pool frame o deposit config w).0 ≡ ok tt)
        ↔ ∥ (
            (who : ℕ) × (l : Ledger) × (frame.ensure_signed o ≡ some who)
            × (frame.min_pool_deposit ≤ deposit)
            × (frame.reserve who deposit w.ledger ≡ ok l)) ∥₁
  unfolding create_pool
  create_iff deposit config = (created, λ t. ∥∥₁_elim t (hlevel) refused)
    where
      created :
          (create_pool frame o deposit config w).0 ≡ ok tt
          → ∥ (
              (who : ℕ) × (l : Ledger) × (frame.ensure_signed o ≡ some who)
              × (frame.min_pool_deposit ≤ deposit)
              × (frame.reserve who deposit w.ledger ≡ ok l)) ∥₁
      created h = elim (Option-cases (frame.ensure_signed o)) [
        | inl s ↦ absurd (ground arith)
        | inr (who, s) ↦ elim (Result-cases (frame.reserve who deposit w.ledger)) [
          | inl (l, r) ↦ ∣ (who, l, s, ground arith, r) ∣₁
          | inr (e, r) ↦ absurd (ground arith)
        ]
      ]

      refused :
          (who : ℕ) × (l : Ledger) × (frame.ensure_signed o ≡ some who)
            × (frame.min_pool_deposit ≤ deposit)
            × (frame.reserve who deposit w.ledger ≡ ok l)
          → (create_pool frame o deposit config w).0 ≡ ok tt
      refused (who, l, s, enough, r) = ground arith

  -- Where the counter of pool ids has reached the largest u32, it stays there: a new pool takes the
  -- place of the pool that has this id, whoever owns it.
  pub create_overwrites :
      (deposit : ℕ) (config : PoolConfig) (who : ℕ)
      → w.next_pool_id ≡ u32_max
      → frame.ensure_signed o ≡ some who
      → (create_pool frame o deposit config w).0 ≡ ok tt
      → (get u32_max (create_pool frame o deposit config w).1.pools
          ≡ some (new_pool frame w.storage who deposit config))
        × ((create_pool frame o deposit config w).1.next_pool_id ≡ u32_max)
  unfolding create_pool
  create_overwrites deposit config who full s h =
      ground (arith, get-insert_self u32_max (new_pool frame w.storage who deposit config) w.pools)

module _ {Ledger Origin : Type 0} (frame : Frame Ledger Origin) (laws : CurrencyLaws frame)
    (o : Origin) (w : World Ledger) where
  -- In a solvent state a successful call of `fund_pool` adds the amount to the pool's balance
  -- exactly, with no saturation, and the currency reserves just as much more for the owner.
  pub fund_exact :
      (p amount : ℕ) (info : PoolInfo)
      → IsSolvent frame laws w.storage
      → get p w.pools ≡ some info
      → (fund_pool frame o p amount w).0 ≡ ok tt
      → let w' = (fund_pool frame o p amount w).1 in
        (get p w'.pools ≡ some (record info { balance = info.balance + amount }))
        × (frame.reserved_balance w'.ledger info.owner
            ≡ frame.reserved_balance w.ledger info.owner + amount)
        × (frame.free_balance w'.ledger info.owner + amount
            ≡ frame.free_balance w.ledger info.owner)
  unfolding fund_pool
  fund_exact p amount info v g h = elim (Result-cases (frame.reserve info.owner amount w.ledger)) [
    | inr (e, r) ↦ absurd (ground arith)
    | inl (l, r) ↦
        let unsaturated : info.balance + amount ≤ u128_max = ground (
          arith,
          v info.owner,
          le-sum_by (backing info.owner) p info w.pools g,
          laws.reserve_moves info.owner amount w.ledger l r,
          laws.reserved_fits l info.owner,
        ) in
        let enough : saturating_add u128_max info.balance amount ≡ info.balance + amount =
          omega arith in
        ground (
          arith,
          unsaturated,
          enough,
          laws.reserve_moves info.owner amount w.ledger l r,
          get-insert_self p (record info { balance = saturating_add u128_max info.balance amount })
              w.pools,
        )
  ]
