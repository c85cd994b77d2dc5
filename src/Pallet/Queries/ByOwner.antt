-- ===== src/Pallet/Queries/ByOwner.antt =====
-- `get_pools_by_owner_account`: which pools it lists.
use mathlib.Core.List.{Mem, Memᴰ}
use mathlib.Core.List.Memᴰ
use mathlib.Core.Logic.{∥∥₁_elim, ∥∥₁_map, ∥∥₁_prop}
use mathlib.Core.HLevel.{×_prop}
use gas_leap.Base.{
  ℕ, ◌<◌, ◌≡◌, ◌↔◌, ap, Option, some, List, [], ◌∷◌, arith, nat_eq, u32_max, Option-cases, inl, inr,
}
use gas_leap.Base.StorageMap.{StorageMap, get}
use gas_leap.Types.{PoolInfo}
use gas_leap.Frame.{Frame}
use gas_leap.Pallet.{World}
use gas_leap.Pallet.History.{StorageLayer, Reach}
use gas_leap.Pallet.Owners.{Reach-IsIndexed, Reach-IsIndexSound}
use gas_leap.Pallet.Queries.{Iteration, IterationLaws, collect_pools, get_pools_by_owner_account}
use native.Mathlib.Nat.{ℕ_set}

Option_PoolInfo_set : IsSet (Option PoolInfo)
Option_PoolInfo_set = hlevel ℕ_set

module _ (pools : StorageMap ℕ PoolInfo) where
  collect_pools-Memᴰ :
      (ids : List ℕ) (p : ℕ) (info : PoolInfo)
      → Memᴰ (p, info) (collect_pools pools ids)
      → Memᴰ p ids × (get p pools ≡ some info)
  unfolding collect_pools
  collect_pools-Memᴰ [] p info m = elim m [ ]
  collect_pools-Memᴰ (q ∷ ids) p info m = elim (Option-cases (get q pools)) [
    | inl e ↦
        let (rest, g) = collect_pools-Memᴰ ids p info (rw (e, collect_pools) at m) in
        (Memᴰ.tail rest, g)
    | inr (i, e) ↦ elim (Memᴰ.cases_cons (rw (e, collect_pools) at m)) [
      | inl here ↦ (Memᴰ.head (ap (λ x. x.0) here), ground arith)
      | inr later ↦ let (rest, g) = collect_pools-Memᴰ ids p info later in (Memᴰ.tail rest, g)
    ]
  ]

  Memᴰ-collect_pools :
      (ids : List ℕ) (p : ℕ) (info : PoolInfo)
      → get p pools ≡ some info
      → Memᴰ p ids
      → Memᴰ (p, info) (collect_pools pools ids)
  unfolding collect_pools
  Memᴰ-collect_pools [] p info g m = elim m [ ]
  Memᴰ-collect_pools (q ∷ ids) p info g (Memᴰ.head e) =
      let g' : get q pools ≡ some info = rw (← e) g in
      rw (g', collect_pools) (Memᴰ.head (λ i. (e i, info)))
  Memᴰ-collect_pools (q ∷ ids) p info g (Memᴰ.tail m) = elim (Option-cases (get q pools)) [
    | inl e ↦ rw (e, collect_pools) (Memᴰ-collect_pools ids p info g m)
    | inr (i, e) ↦ rw (e, collect_pools) (Memᴰ.tail (Memᴰ-collect_pools ids p info g m))
  ]

  mem-collect_pools :
      (ids : List ℕ) (p : ℕ) (info : PoolInfo)
      → Mem (p, info) (collect_pools pools ids) ↔ (Mem p ids × (get p pools ≡ some info))
  mem-collect_pools ids p info = (
    λ m.
        ∥∥₁_elim m (×_prop ∥∥₁_prop (Option_PoolInfo_set _ _))
          (λ d. let (a, g) = collect_pools-Memᴰ ids p info d in (∣ a ∣₁, g)),
    λ h. ∥∥₁_map h.0 (Memᴰ-collect_pools ids p info h.1),
  )

module _ {Ledger Origin : Type 0} (frame : Frame Ledger Origin) (layer : StorageLayer Ledger)
    (it : Iteration) (laws : IterationLaws it) where
  -- In every reachable state in which the pool ids have not run out, the pools listed for an
  -- owner are exactly the pools stored with that owner, each with its stored data.
  pub pools_by_owner_exact :
      {w : World Ledger}
      → Reach frame layer w
      → w.next_pool_id < u32_max
      → (owner p : ℕ) (info : PoolInfo)
      → Mem (p, info) (get_pools_by_owner_account it w.storage owner)
        ↔ ((get p w.pools ≡ some info) × (info.owner ≡ owner))
  unfolding get_pools_by_owner_account
  pools_by_owner_exact {w} r lt owner p info = (
    λ m.
        let (listed, g) = (mem-collect_pools w.pools _ p info).0 m in
        let (_, sound) = Reach-IsIndexSound frame layer r in
        let (i, g', o) = sound lt owner p ((laws.mem-iter_prefix owner p w.pool_owners).0 listed) in
        (g, ground arith),
    λ h. (mem-collect_pools w.pools _ p info).1 (
      (laws.mem-iter_prefix owner p w.pool_owners).1
          (rw (← h.1) (Reach-IsIndexed frame layer r p info h.0)),
      h.0,
    ),
  )
