-- ===== src/Pallet/Queries/Quote.antt =====
-- `estimate_transaction_gas_cost`: what it quotes, against what `sponsor_transaction` charges.
use gas_leap.Base.{ℕ, ◌+◌, ◌*◌, ◌<◌, ◌^◌, ◌≡◌, List, some, ok, arith, length, nat_eq, if◌then◌else◌}
use gas_leap.Base.StorageMap.{get, get-insert_self}
use gas_leap.Types.{PoolInfo}
use gas_leap.Gateway.Message.{is_supported_parachain}
use gas_leap.Gateway.Fee.{estimate_fee}
use gas_leap.Gateway.Tables.{base_fee_of}
use gas_leap.Frame.{Frame}
use gas_leap.Pallet.{World, sponsor_transaction}
use gas_leap.Pallet.Change.{charge}
use gas_leap.Pallet.Sponsoring.{sponsor_transaction-IsPayable, sponsor_effect}
use gas_leap.Pallet.Queries.{estimate_transaction_gas_cost}

-- For call data below 2 ^ 32 bytes the quote of a supported parachain is its base fee and 2 for
-- each byte; for any other it is 1000 and 10 for each byte, though no call to it is ever sent.
quote_lem :
    (target : ℕ) (call_data : List ℕ)
    → length call_data < 2 ^ 32
    → estimate_transaction_gas_cost target call_data ≡ (
        if is_supported_parachain target
        then base_fee_of target + 2 * length call_data
        else 1000 + 10 * length call_data)
unfolding estimate_transaction_gas_cost estimate_fee is_supported_parachain
quote_lem target call_data short = ground arith

priced-quote :
    (target : ℕ) (call_data : List ℕ) (fee : ℕ)
    → estimate_fee target call_data ≡ ok fee
    → estimate_transaction_gas_cost target call_data ≡ fee
unfolding estimate_transaction_gas_cost
priced-quote target call_data fee h = ground arith

module _ {Ledger Origin : Type 0} (frame : Frame Ledger Origin) (origin : Origin)
    (pool_id target : ℕ) (call_data : List ℕ) (w : World Ledger) where
  -- A successful call of `sponsor_transaction` charges the pool exactly what
  -- `estimate_transaction_gas_cost` quotes for the same chain and call data.
  pub quote_charged :
      (info : PoolInfo)
      → get pool_id w.pools ≡ some info
      → (sponsor_transaction frame origin pool_id target call_data w).0 ≡ ok tt
      → get pool_id (sponsor_transaction frame origin pool_id target call_data w).1.pools
        ≡ some (charge frame info (estimate_transaction_gas_cost target call_data))
  quote_charged info g h =
      let (who, info', fee, payable, sendable) =
        sponsor_transaction-IsPayable frame origin pool_id target call_data w h in
      ground (
        arith,
        payable.found,
        priced-quote target call_data fee payable.priced,
        sponsor_effect frame origin pool_id target call_data w who info' fee payable sendable,
        get-insert_self pool_id (charge frame info' fee) w.pools,
      )
