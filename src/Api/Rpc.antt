-- ===== src/Api/Rpc.antt =====
-- The JSON-RPC server of the sponsorship pallet (pallets/sponsorship/src/rpc.rs). The client,
-- which runs the runtime API on the state of a block, is a parameter.
use gas_leap.Base.{ℕ, ◌≡◌, List, Option, none, some, Result, ok, err, arith}
use gas_leap.Types.{PoolInfo, TransactionRecord}
use gas_leap.Pallet.{Storage}
use gas_leap.Pallet.Queries.{
  Iteration, get_pool_info, get_pools_by_owner_account, get_pool_transaction_history,
  get_user_total_gas_savings, estimate_transaction_gas_cost,
}
use gas_leap.Api
use gas_leap.Api.{api_answers}

-- `ProvideRuntimeApi` and `HeaderBackend`: the state of a block, or why there is none, and the
-- hash of the best block.
pub record Client (Ledger Hash ApiError : Type 0) : Type 0 where
  pub state_at : Hash → Result ApiError (Storage Ledger)
  pub best_hash : Hash

-- `CallError::Custom` with the code `InternalError`; the message is the formatted error.
pub data RpcError (ApiError : Type 0) : Type 0 where
  internal_error : ApiError → RpcError ApiError

module _ {Ledger Hash ApiError : Type 0} (it : Iteration)
    (client : Client Ledger Hash ApiError) where
  -- `at.unwrap_or_else(|| self.client.info().best_hash)`
  abbrev pub block_or_best : Option Hash → Hash
  block_or_best none = client.best_hash
  block_or_best (some hash) = hash

  -- A function of the runtime API at a block, its error mapped.
  abbrev pub runtime_api :
      {A : Type 0} → (Storage Ledger → A) → Option Hash → Result (RpcError ApiError) A
  runtime_api f at = elim (client.state_at (block_or_best at)) [
    | ok s ↦ ok (f s)
    | err e ↦ err (internal_error e)
  ]

  -- `limit.unwrap_or(50)`
  abbrev pub limit_or_default : Option ℕ → ℕ
  limit_or_default none = 50
  limit_or_default (some limit) = limit

  unfoldable pub get_pool : ℕ → Option Hash → Result (RpcError ApiError) (Option PoolInfo)
  unfolding Api.get_pool
  get_pool pool_id at = runtime_api (λ s. Api.get_pool it s pool_id) at

  unfoldable pub get_pools_by_owner :
      ℕ → Option Hash → Result (RpcError ApiError) (List (ℕ × PoolInfo))
  unfolding Api.get_pools_by_owner
  get_pools_by_owner owner at = runtime_api (λ s. Api.get_pools_by_owner it s owner) at

  unfoldable pub get_transaction_history :
      ℕ → Option ℕ → Option Hash → Result (RpcError ApiError) (List TransactionRecord)
  unfolding Api.get_transaction_history
  get_transaction_history pool_id limit at =
      runtime_api (λ s. Api.get_transaction_history it s pool_id (limit_or_default limit)) at

  unfoldable pub get_user_gas_savings : ℕ → Option Hash → Result (RpcError ApiError) ℕ
  unfolding Api.get_user_gas_savings
  get_user_gas_savings user at = runtime_api (λ s. Api.get_user_gas_savings it s user) at

  unfoldable pub estimate_gas_cost : ℕ → List ℕ → Option Hash → Result (RpcError ApiError) ℕ
  unfolding Api.estimate_gas_cost
  estimate_gas_cost target_chain call_data at =
      runtime_api (λ s. Api.estimate_gas_cost it s target_chain call_data) at

  runtime_api-ok :
      {A : Type 0} (f : Storage Ledger → A) (at : Option Hash) (s : Storage Ledger) (a : A)
      → client.state_at (block_or_best at) ≡ ok s
      → f s ≡ a
      → runtime_api f at ≡ ok a
  runtime_api-ok f at s a h e = ground arith

  runtime_api-err :
      {A : Type 0} (f : Storage Ledger → A) (at : Option Hash) (e : ApiError)
      → client.state_at (block_or_best at) ≡ err e
      → runtime_api f at ≡ err (internal_error e)
  runtime_api-err f at e h = ground arith

  -- A request for a block whose state the client has is answered from that state by the pallet's
  -- function; without a block it is the best block, and without a limit the limit is 50.
  pub rpc_answers :
      (at : Option Hash) (s : Storage Ledger) (pool_id owner target_chain : ℕ) (limit : Option ℕ)
      (call_data : List ℕ)
      → client.state_at (block_or_best at) ≡ ok s
      → (get_pool pool_id at ≡ ok (get_pool_info s pool_id))
        × (get_pools_by_owner owner at ≡ ok (get_pools_by_owner_account it s owner))
        × (get_transaction_history pool_id limit at
            ≡ ok (get_pool_transaction_history it s pool_id (limit_or_default limit)))
        × (get_user_gas_savings owner at ≡ ok (get_user_total_gas_savings it s owner))
        × (estimate_gas_cost target_chain call_data at
            ≡ ok (estimate_transaction_gas_cost target_chain call_data))
  unfolding get_pool get_pools_by_owner get_transaction_history get_user_gas_savings
      estimate_gas_cost
  rpc_answers at s pool_id owner target_chain limit call_data h =
      let (a, b, c, d, e) =
        api_answers it s pool_id owner (limit_or_default limit) target_chain call_data in
      (
        runtime_api-ok _ at s _ h a,
        runtime_api-ok _ at s _ h b,
        runtime_api-ok _ at s _ h c,
        runtime_api-ok _ at s _ h d,
        runtime_api-ok _ at s _ h e,
      )

  -- Where the client has no state, all five requests fail with its error as an internal error, the
  -- estimate too, though it does not depend on the state.
  pub rpc_refuses :
      (at : Option Hash) (e : ApiError) (pool_id owner target_chain : ℕ) (limit : Option ℕ)
      (call_data : List ℕ)
      → client.state_at (block_or_best at) ≡ err e
      → (get_pool pool_id at ≡ err (internal_error e))
        × (get_pools_by_owner owner at ≡ err (internal_error e))
        × (get_transaction_history pool_id limit at ≡ err (internal_error e))
        × (get_user_gas_savings owner at ≡ err (internal_error e))
        × (estimate_gas_cost target_chain call_data at ≡ err (internal_error e))
  unfolding get_pool get_pools_by_owner get_transaction_history get_user_gas_savings
      estimate_gas_cost
  rpc_refuses at e pool_id owner target_chain limit call_data h = (
    runtime_api-err _ at e h,
    runtime_api-err _ at e h,
    runtime_api-err _ at e h,
    runtime_api-err _ at e h,
    runtime_api-err _ at e h,
  )
