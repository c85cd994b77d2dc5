-- ===== src/Frame.antt =====
-- What the pallet takes from FRAME and its currency, code outside of the repository: the
-- operations that pallets/sponsorship/src/lib.rs calls as parameters, and what they document
-- as laws, which the theorems that need them take as hypotheses.
use gas_leap.Base.{ℕ, ◌+◌, ◌≤◌, ◌≡◌, ◌≢◌, List, Option, Result, ok, u128_max}

-- `Ledger` is the storage of the currency, and `Origin` the runtime's origin type.
pub record Frame (Ledger Origin : Type 0) : Type 0 where
  -- `ensure_signed`: the signer, or nothing for `BadOrigin`
  pub ensure_signed : Origin → Option ℕ
  -- `T::Hashing::hash`
  pub hash : List ℕ → ℕ
  -- `T::Currency::reserve(who, amount)`; an error is a number, and writes nothing
  pub reserve : ℕ → ℕ → Ledger → Result ℕ Ledger
  -- `T::Currency::free_balance` and `reserved_balance`, which the statements look at
  pub free_balance : Ledger → ℕ → ℕ
  pub reserved_balance : Ledger → ℕ → ℕ
  -- what other pallets of the runtime have reserved of an account and not released, such as the
  -- bonds of the collator candidates; the ledger stands for their storage too
  pub reserved_by_others : Ledger → ℕ → ℕ
  -- `T::MinPoolDeposit`
  pub min_pool_deposit : ℕ

-- `ReservableCurrency::reserve` moves the amount from the free to the reserved balance of the
-- account and touches no other; a reserved balance is a u128. It is the total of what all pallets
-- have reserved, and a reserve of this pallet is none of the others.
pub record CurrencyLaws {Ledger Origin : Type 0} (frame : Frame Ledger Origin) : Type 0 where
  pub reserve_moves :
      (who amount : ℕ) (l l' : Ledger)
      → frame.reserve who amount l ≡ ok l'
      → (frame.reserved_balance l' who ≡ frame.reserved_balance l who + amount)
        × (frame.free_balance l' who + amount ≡ frame.free_balance l who)
  pub reserve_others :
      (who amount : ℕ) (l l' : Ledger) (other : ℕ)
      → frame.reserve who amount l ≡ ok l'
      → other ≢ who
      → (frame.reserved_balance l' other ≡ frame.reserved_balance l other)
        × (frame.free_balance l' other ≡ frame.free_balance l other)
  pub reserve_own :
      (who amount : ℕ) (l l' : Ledger) (other : ℕ)
      → frame.reserve who amount l ≡ ok l'
      → frame.reserved_by_others l' other ≡ frame.reserved_by_others l other
  pub others_included :
      (l : Ledger) (who : ℕ) → frame.reserved_by_others l who ≤ frame.reserved_balance l who
  pub reserved_fits : (l : Ledger) (who : ℕ) → frame.reserved_balance l who ≤ u128_max
