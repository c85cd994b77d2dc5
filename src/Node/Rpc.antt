-- ===== src/Node/Rpc.antt =====
-- node/src/rpc.rs: the module of all RPC methods, made of those of three servers. jsonrpsee's modules
-- are a parameter; the sponsorship server's methods are those of pallets/sponsorship/src/rpc.rs.
pub mod Serving
use Prim.Native.String.{String}
use gas_leap.Base.{ℕ, ◌≡◌, List, [], ◌∷◌, Bool, true, false, ◌||◌, Option, some, Result, ok, err}
use gas_leap.Base.Results.{◌>>=◌}
use gas_leap.Types.{PoolInfo, TransactionRecord}
use gas_leap.Pallet.Queries.{Iteration}
use gas_leap.Api.Rpc
use gas_leap.Api.Rpc.{Client, RpcError}

-- A request of the sponsorship server, its parameters decoded.
pub data Request (Hash : Type 0) : Type 0 where
  get_pool : (pool_id : ℕ) → Option Hash → Request Hash
  get_pools_by_owner : (owner : ℕ) → Option Hash → Request Hash
  get_transaction_history : (pool_id : ℕ) (limit : Option ℕ) → Option Hash → Request Hash
  get_user_gas_savings : (user : ℕ) → Option Hash → Request Hash
  estimate_gas_cost : (target_chain : ℕ) (call_data : List ℕ) → Option Hash → Request Hash

-- What the methods return.
pub data Reply : Type 0 where
  pool : Option PoolInfo → Reply
  pools : List (ℕ × PoolInfo) → Reply
  history : List TransactionRecord → Reply
  amount : ℕ → Reply

-- The methods of the server, and `#[method(name = …)]`.
pub data Method : Type 0 where
  pool_by_id pools_by_owner transaction_history gas_savings gas_estimate : Method

unfoldable pub method_name : Method → String
method_name pool_by_id = "sponsorship_getPool"
method_name pools_by_owner = "sponsorship_getPoolsByOwner"
method_name transaction_history = "sponsorship_getTransactionHistory"
method_name gas_savings = "sponsorship_getUserGasSavings"
method_name gas_estimate = "sponsorship_estimateGasCost"

abbrev pub method_of : {Hash : Type 0} → Request Hash → Method
method_of (get_pool pool_id at) = pool_by_id
method_of (get_pools_by_owner owner at) = pools_by_owner
method_of (get_transaction_history pool_id limit at) = transaction_history
method_of (get_user_gas_savings user at) = gas_savings
method_of (estimate_gas_cost target_chain call_data at) = gas_estimate

-- `RpcModule` of jsonrpsee: the names that are registered, and what a call under a name, with
-- parameters that are decoded, is answered. `into_rpc` is what the macro makes of a server's methods
-- and their names.
pub record Modules (Module Hash Error ApiError : Type 0) : Type 0 where
  pub new : Module
  pub merge : Module → Module → Result Error Module
  pub registered : Module → String → Bool
  pub call : Module → String → Request Hash → Option (Result (RpcError ApiError) Reply)
  pub into_rpc : (Method → String) → (Request Hash → Result (RpcError ApiError) Reply) → Module

-- Documented: `merge` adds the methods of the second module, and fails only where a name is
-- registered in both; a new module has none. Where no two methods have the same name, a module from
-- `into_rpc` answers a call under the name of a method with the method; a name that is given twice
-- cannot be registered.
pub record ModuleLaws {Module Hash Error ApiError : Type 0}
    (modules : Modules Module Hash Error ApiError) : Type 0 where
  pub new-registered : (name : String) → modules.registered modules.new name ≡ false
  pub merges :
      (m n : Module)
      → ((name : String) → modules.registered m name ≡ true → modules.registered n name ≡ false)
      → (k : Module) × (modules.merge m n ≡ ok k)
        × ((name : String)
            → modules.registered k name ≡ (modules.registered m name || modules.registered n name))
        × ((name : String) (r : Request Hash)
            → modules.registered n name ≡ true
            → modules.call k name r ≡ modules.call n name r)
  pub answers :
      (names : Method → String) (f : Request Hash → Result (RpcError ApiError) Reply)
      → ((m m' : Method) → names m ≡ names m' → m ≡ m')
      → (r : Request Hash)
      → (modules.registered (modules.into_rpc names f) (names (method_of r)) ≡ true)
        × (modules.call (modules.into_rpc names f) (names (method_of r)) r ≡ some (f r))

module _ {Ledger Module Hash Error ApiError : Type 0} (it : Iteration)
    (client : Client Ledger Hash ApiError) (modules : Modules Module Hash Error ApiError) where
  abbrev returns :
      {A : Type 0} → (A → Reply) → Result (RpcError ApiError) A → Result (RpcError ApiError) Reply
  returns reply (ok a) = ok (reply a)
  returns reply (err e) = err e

  -- `SponsorshipRpc`: each request goes to the method of its name.
  unfoldable pub sponsorship_rpc : Request Hash → Result (RpcError ApiError) Reply
  sponsorship_rpc (get_pool pool_id at) = returns pool (Rpc.get_pool it client pool_id at)
  sponsorship_rpc (get_pools_by_owner owner at) =
      returns pools (Rpc.get_pools_by_owner it client owner at)
  sponsorship_rpc (get_transaction_history pool_id limit at) =
      returns history (Rpc.get_transaction_history it client pool_id limit at)
  sponsorship_rpc (get_user_gas_savings user at) =
      returns amount (Rpc.get_user_gas_savings it client user at)
  sponsorship_rpc (estimate_gas_cost target_chain call_data at) =
      returns amount (Rpc.estimate_gas_cost it client target_chain call_data at)

  -- The modules of `System` and of `TransactionPayment` are given.
  unfoldable pub create_full : (system transaction_payment : Module) → Result Error Module
  create_full system transaction_payment = do
    m ← modules.merge modules.new system
    m' ← modules.merge m transaction_payment
    modules.merge m' (modules.into_rpc method_name sponsorship_rpc)
