-- ===== src/Api.antt =====
-- The runtime API of the sponsorship pallet (pallets/sponsorship/rpc/runtime-api/src/lib.rs, and
-- its implementation in runtime/src/lib.rs): what the node can ask of a block's state. The
-- implementation copies every pool and record field by field.
pub mod Rpc
use mathlib.Core.Option
use gas_leap.Base.{ℕ, ◌≡◌, refl, ap, List, [], ◌∷◌, Option, none, some, Option-cases, inl, inr}
use gas_leap.Types.{PoolInfo, TransactionRecord}
use gas_leap.Pallet.{Storage}
use gas_leap.Pallet.Queries.{
  Iteration, get_pool_info, get_pools_by_owner_account, get_pool_transaction_history,
  get_user_total_gas_savings, estimate_transaction_gas_cost,
}

abbrev pub map {ℓ} : {A B : Type ℓ} → (A → B) → List A → List B
map f [] = []
map f (x ∷ xs) = f x ∷ map f xs

abbrev pub copy_pool : PoolInfo → PoolInfo
copy_pool pool_info = record {
  owner = pool_info.owner;
  balance = pool_info.balance;
  total_spent = pool_info.total_spent;
  created_at = pool_info.created_at;
  config = pool_info.config;
  status = pool_info.status;
}

abbrev pub copy_record : TransactionRecord → TransactionRecord
copy_record tx_record = record {
  id = tx_record.id;
  pool_id = tx_record.pool_id;
  user = tx_record.user;
  target_chain = tx_record.target_chain;
  call_hash = tx_record.call_hash;
  gas_cost = tx_record.gas_cost;
  status = tx_record.status;
  timestamp = tx_record.timestamp;
}

module _ {Ledger : Type 0} (it : Iteration) (s : Storage Ledger) where
  unfoldable pub get_pool : ℕ → Option PoolInfo
  unfolding get_pool_info
  get_pool pool_id = Option.map copy_pool (get_pool_info s pool_id)

  unfoldable pub get_pools_by_owner : ℕ → List (ℕ × PoolInfo)
  unfolding get_pools_by_owner_account
  get_pools_by_owner owner =
      map (λ (pool_id, pool_info). (pool_id, copy_pool pool_info))
        (get_pools_by_owner_account it s owner)

  unfoldable pub get_transaction_history : (pool_id limit : ℕ) → List TransactionRecord
  unfolding get_pool_transaction_history
  get_transaction_history pool_id limit =
      map copy_record (get_pool_transaction_history it s pool_id limit)

  unfoldable pub get_user_gas_savings : ℕ → ℕ
  unfolding get_user_total_gas_savings
  get_user_gas_savings user = get_user_total_gas_savings it s user

  unfoldable pub estimate_gas_cost : ℕ → List ℕ → ℕ
  unfolding estimate_transaction_gas_cost
  estimate_gas_cost target_chain call_data = estimate_transaction_gas_cost target_chain call_data

map-same : {A : Type 0} (f : A → A) → ((x : A) → f x ≡ x) → (xs : List A) → map f xs ≡ xs
map-same f h [] = refl
map-same f h (x ∷ xs) = λ i. h x i ∷ map-same f h xs i

module _ {Ledger : Type 0} (it : Iteration) (s : Storage Ledger) where
  -- The copies lose nothing: the five functions of the runtime API answer what the functions of
  -- the pallet answer.
  pub api_answers :
      (pool_id owner limit target_chain : ℕ) (call_data : List ℕ)
      → (get_pool it s pool_id ≡ get_pool_info s pool_id)
        × (get_pools_by_owner it s owner ≡ get_pools_by_owner_account it s owner)
        × (get_transaction_history it s pool_id limit
            ≡ get_pool_transaction_history it s pool_id limit)
        × (get_user_gas_savings it s owner ≡ get_user_total_gas_savings it s owner)
        × (estimate_gas_cost it s target_chain call_data
            ≡ estimate_transaction_gas_cost target_chain call_data)
  unfolding get_pool get_pools_by_owner get_transaction_history get_user_gas_savings
      estimate_gas_cost
  api_answers pool_id owner limit target_chain call_data = (
    elim (Option-cases (get_pool_info s pool_id)) [ inl e ↦ rw e refl | inr (i, e) ↦ rw e refl ],
    map-same _ (λ x. refl) (get_pools_by_owner_account it s owner),
    map-same copy_record (λ x. refl) (get_pool_transaction_history it s pool_id limit),
    refl,
    refl,
  )
