-- ===== src/Node/Launch.antt =====
-- The pallet on a chain that a built-in specification has started.
use Prim.Native.String.{String}
use gas_leap.Base.{
  ℕ, ◌+◌, ◌^◌, ◌≤◌, ◌≡◌, List, [], ◌∷◌, true, some, Result, ok, arith, contains, nat_eq, pair_eq,
  le→leb, ◌<◌, u128_max,
}
use gas_leap.Types.{PoolConfig}
use gas_leap.Runtime.{existential_deposit, min_pool_deposit}
use gas_leap.Base.StorageMap.{get, insert}
use gas_leap.Frame.{Frame, CurrencyLaws}
use gas_leap.Pallet
use gas_leap.Pallet.{World}
use gas_leap.Pallet.History.{StorageLayer, genesis}
use gas_leap.Pallet.Change.{new_pool}
use gas_leap.Node.ChainSpec.{Crates, GenesisConfig, ChainSpec, load_spec}
use gas_leap.Node.Genesis.{keys_of, AllHold, is_built_in, built_in-IsSound}

module _ {Ledger Origin : Type 0} (frame : Frame Ledger Origin) (layer : StorageLayer Ledger) where
  -- pallet_balances builds the free balances from the genesis, and reserves nothing.
  abbrev pub Endows : Ledger → List (ℕ × ℕ) → Type 0
  Endows l [] = Unit
  Endows l ((who, amount) ∷ rest) =
      (frame.free_balance l who ≡ amount) × (frame.reserved_balance l who ≡ 0) × Endows l rest

  -- The chain of this runtime: its minimum deposit, and a currency that reserves what leaves the
  -- existential deposit free and keeps the reserve a u128.
  pub record IsRuntime : Type 0 where
    pub deposit : frame.min_pool_deposit ≡ min_pool_deposit
    pub reserves :
        (who amount : ℕ) (l : Ledger)
        → amount + existential_deposit ≤ frame.free_balance l who
        → frame.reserved_balance l who + amount < u128_max
        → (l' : Ledger) × (frame.reserve who amount l ≡ ok l')

  -- What pallet_transaction_payment does before a call: it takes the fee from the signer's free balance.
  pub record IsCharged (who fee : ℕ) (l l' : Ledger) : Type 0 where
    pub paid : frame.free_balance l' who + fee ≡ frame.free_balance l who
    pub kept : frame.reserved_balance l' who ≡ frame.reserved_balance l who

  Endows-free :
      (l : Ledger) (balances : List (ℕ × ℕ)) (amount who : ℕ)
      → Endows l balances
      → AllHold amount balances
      → contains (keys_of balances) who ≡ true
      → (frame.free_balance l who ≡ amount) × (frame.reserved_balance l who ≡ 0)
  Endows-free l [] amount who h k c = cc
  Endows-free l ((a, b) ∷ rest) amount who h k c = (
    ground (arith, Endows-free l rest amount who h.2 k.1),
    ground (arith, Endows-free l rest amount who h.2 k.1),
  )

  -- On a chain started from a built-in specification every endowed account can create a pool by its
  -- first transaction, with any deposit from the runtime's minimum up to all that the transaction's fee
  -- and the existential deposit leave of its 2 ^ 60: after the fee is charged, the call succeeds, the
  -- pool is stored under the id 0, active and with the deposit as its balance, the next id is 1, the
  -- deposit is in reserve, and the rest without the fee is free.
  pub endowed_create :
      (laws : CurrencyLaws frame) (crates : Crates)
      (from_json_file : String → Result String ChainSpec) (id : String) (spec : ChainSpec)
      (g : GenesisConfig) (l l' : Ledger) (block : ℕ) (origin : Origin) (who fee deposit : ℕ)
      (config : PoolConfig)
      → IsRuntime
      → is_built_in id ≡ true
      → load_spec crates from_json_file id ≡ ok spec
      → spec.genesis ≡ some g
      → Endows l g.balances
      → contains (keys_of g.balances) who ≡ true
      → frame.ensure_signed origin ≡ some who
      → IsCharged who fee l l'
      → min_pool_deposit ≤ deposit
      → fee + deposit + existential_deposit ≤ 2 ^ 60
      → let w : World Ledger = record { storage = genesis frame layer l' block; lines = [] } in
        let (result, after) = Pallet.create_pool frame origin deposit config w in
        (result ≡ ok tt)
        × (get 0 after.pools ≡ some (new_pool frame w.storage who deposit config))
        × (after.next_pool_id ≡ 1)
        × (frame.reserved_balance after.ledger who ≡ deposit)
        × (frame.free_balance after.ledger who + fee + deposit ≡ 2 ^ 60)
  unfolding Pallet.create_pool get insert
  endowed_create laws crates from_json_file id spec g l l' block origin who fee deposit config
        runtime b h e endows listed signer charged low high =
      let sound = built_in-IsSound crates from_json_file id spec g b h e in
      let (free, none_reserved) = Endows-free l g.balances (2 ^ 60) who endows sound.funds listed in
      let (l'', r) =
        runtime.reserves who deposit l' (omega (arith, free, charged.paid))
          (omega (arith, none_reserved, charged.kept)) in
      let enough = le→leb frame.min_pool_deposit deposit (omega (arith, runtime.deposit)) in
      let (reserved, left) = laws.reserve_moves who deposit l' l'' r in
      (
        ground arith,
        ground arith,
        ground arith,
        ground (arith, charged.kept),
        ground (arith, charged.paid),
      )
