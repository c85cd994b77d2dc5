-- ===== src/Node/Rpc/Serving.antt =====
-- A request to the node, from its RPC module to the pallet.
use Prim.Native.String.{String}
use text.Mathlib.Text.{◌==◌ as str_eq}
use gas_leap.Base.{
  refl, if◌then◌else◌, Result, err, sym, ap, ◌∙◌, inl, inr, Result-cases, ◌≡◌, [], true, false,
  ◌||◌, Option, none, some, ok, arith,
}
use gas_leap.Pallet.{Storage}
use gas_leap.Pallet.Queries.{
  Iteration, get_pool_info, get_pools_by_owner_account, get_pool_transaction_history,
  get_user_total_gas_savings, estimate_transaction_gas_cost,
}
use gas_leap.Api.Rpc.{Client, RpcError, internal_error, block_or_best, rpc_answers, rpc_refuses}
use gas_leap.Node.Rpc.{
  Method, pool_by_id, pools_by_owner, transaction_history, gas_savings, gas_estimate, method_name,
  method_of, Request, get_pool, get_pools_by_owner, get_transaction_history, get_user_gas_savings,
  estimate_gas_cost, Reply, pool, pools, history, amount, Modules, ModuleLaws, sponsorship_rpc,
  create_full,
}

-- The block that a request is about.
abbrev pub block_of : {Hash : Type 0} → Request Hash → Option Hash
block_of (get_pool pool_id at) = at
block_of (get_pools_by_owner owner at) = at
block_of (get_transaction_history pool_id limit at) = at
block_of (get_user_gas_savings user at) = at
block_of (estimate_gas_cost target_chain call_data at) = at

-- The method that a name on the wire stands for.
abbrev method_for : String → Option Method
method_for name =
    if str_eq name "sponsorship_getPool"
    then some pool_by_id
    else if str_eq name "sponsorship_getPoolsByOwner"
    then some pools_by_owner
    else if str_eq name "sponsorship_getTransactionHistory"
    then some transaction_history
    else if str_eq name "sponsorship_getUserGasSavings"
    then some gas_savings
    else if str_eq name "sponsorship_estimateGasCost"
    then some gas_estimate
    else none

method_for-method_name : (m : Method) → method_for (method_name m) ≡ some m
unfolding method_name
method_for-method_name pool_by_id = refl
method_for-method_name pools_by_owner = refl
method_for-method_name transaction_history = refl
method_for-method_name gas_savings = refl
method_for-method_name gas_estimate = refl

method_name-injective : (m m' : Method) → method_name m ≡ method_name m' → m ≡ m'
method_name-injective m m' h =
    let same : some m ≡ some m' =
      sym (method_for-method_name m) ∙ ap method_for h ∙ method_for-method_name m' in
    cc

module _ {Ledger Module Hash Error ApiError : Type 0} (it : Iteration)
    (client : Client Ledger Hash ApiError) (modules : Modules Module Hash Error ApiError) where
  -- The client's state of the block that a request names, and of the best block if it names none.
  abbrev pub state_for : Request Hash → Result ApiError (Storage Ledger)
  state_for r = elim (block_of r) [
    | none ↦ client.state_at client.best_hash
    | some block ↦ client.state_at block
  ]

  -- What the pallet's own functions say on a storage; without a limit a history has up to 50 records.
  abbrev pub pallet_reply : Storage Ledger → Request Hash → Reply
  pallet_reply s (get_pool pool_id at) = pool (get_pool_info s pool_id)
  pallet_reply s (get_pools_by_owner owner at) = pools (get_pools_by_owner_account it s owner)
  pallet_reply s (get_transaction_history pool_id none at) =
      history (get_pool_transaction_history it s pool_id 50)
  pallet_reply s (get_transaction_history pool_id (some limit) at) =
      history (get_pool_transaction_history it s pool_id limit)
  pallet_reply s (get_user_gas_savings user at) = amount (get_user_total_gas_savings it s user)
  pallet_reply s (estimate_gas_cost target_chain call_data at) =
      amount (estimate_transaction_gas_cost target_chain call_data)

  -- The pallet's reply on the state, or why the client has none.
  abbrev pub reply_on :
      Result ApiError (Storage Ledger) → Request Hash → Result (RpcError ApiError) Reply
  reply_on (ok s) r = ok (pallet_reply s r)
  reply_on (err e) r = err (internal_error e)

  named-block :
      (at : Option Hash)
      → client.state_at (block_or_best it client at)
        ≡ elim at [ none ↦ client.state_at client.best_hash | some block ↦ client.state_at block ]
  named-block none = refl
  named-block (some block) = refl

  sponsorship_rpc-ok :
      (r : Request Hash) (s : Storage Ledger)
      → state_for r ≡ ok s
      → sponsorship_rpc it client modules r ≡ ok (pallet_reply s r)
  unfolding sponsorship_rpc
  sponsorship_rpc-ok (get_pool pool_id at) s h =
      ground (arith, rpc_answers it client at s pool_id 0 0 none [] (named-block at ∙ h))
  sponsorship_rpc-ok (get_pools_by_owner owner at) s h =
      ground (arith, rpc_answers it client at s 0 owner 0 none [] (named-block at ∙ h))
  sponsorship_rpc-ok (get_transaction_history pool_id none at) s h =
      ground (arith, rpc_answers it client at s pool_id 0 0 none [] (named-block at ∙ h))
  sponsorship_rpc-ok (get_transaction_history pool_id (some limit) at) s h =
      ground (arith, rpc_answers it client at s pool_id 0 0 (some limit) [] (named-block at ∙ h))
  sponsorship_rpc-ok (get_user_gas_savings user at) s h =
      ground (arith, rpc_answers it client at s 0 user 0 none [] (named-block at ∙ h))
  sponsorship_rpc-ok (estimate_gas_cost target_chain call_data at) s h =
      ground
        (arith, rpc_answers it client at s 0 0 target_chain none call_data (named-block at ∙ h))

  sponsorship_rpc-err :
      (r : Request Hash) (e : ApiError)
      → state_for r ≡ err e
      → sponsorship_rpc it client modules r ≡ err (internal_error e)
  unfolding sponsorship_rpc
  sponsorship_rpc-err (get_pool pool_id at) e h =
      ground (arith, rpc_refuses it client at e pool_id 0 0 none [] (named-block at ∙ h))
  sponsorship_rpc-err (get_pools_by_owner owner at) e h =
      ground (arith, rpc_refuses it client at e 0 owner 0 none [] (named-block at ∙ h))
  sponsorship_rpc-err (get_transaction_history pool_id limit at) e h =
      ground (arith, rpc_refuses it client at e pool_id 0 0 limit [] (named-block at ∙ h))
  sponsorship_rpc-err (get_user_gas_savings user at) e h =
      ground (arith, rpc_refuses it client at e 0 user 0 none [] (named-block at ∙ h))
  sponsorship_rpc-err (estimate_gas_cost target_chain call_data at) e h =
      ground
        (arith, rpc_refuses it client at e 0 0 target_chain none call_data (named-block at ∙ h))

  sponsorship_rpc-reply :
      (r : Request Hash) → sponsorship_rpc it client modules r ≡ reply_on (state_for r) r
  sponsorship_rpc-reply r = elim (Result-cases (state_for r)) [
    | inl (s, h) ↦ sponsorship_rpc-ok r s h ∙ ap (λ x. reply_on x r) (sym h)
    | inr (e, h) ↦ sponsorship_rpc-err r e h ∙ ap (λ x. reply_on x r) (sym h)
  ]

  -- Where no two of the three servers have a method of the same name, the module of all methods is made.
  -- A request of the sponsorship server that is called under its method's name, which none of the
  -- server's other methods has, is then answered through the module by the pallet's function on the
  -- state of the block that the request names, and of the best block if it names none; where the client
  -- has no such state, it is answered with the client's error as an internal error.
  pub create_full_serves :
      (laws : ModuleLaws modules) (system transaction_payment : Module) (r : Request Hash)
      → let sponsorship = modules.into_rpc method_name (sponsorship_rpc it client modules) in
        ((name : String)
          → modules.registered system name ≡ true
          → modules.registered transaction_payment name ≡ false)
        → ((name : String)
            → (modules.registered system name || modules.registered transaction_payment name) ≡ true
            → modules.registered sponsorship name ≡ false)
        → (full : Module) × (create_full it client modules system transaction_payment ≡ ok full)
          × (modules.call full (method_name (method_of r)) r ≡ some (reply_on (state_for r) r))
          × ((m : Method) → method_name m ≡ method_name (method_of r) → m ≡ method_of r)
  unfolding create_full
  create_full_serves laws system transaction_payment r apart apart' =
      let sponsorship = modules.into_rpc method_name (sponsorship_rpc it client modules) in
      let (m, e, has, _) =
        laws.merges modules.new system (λ name t. ground (arith, laws.new-registered name)) in
      let (m', e', has', _) =
        laws.merges m transaction_payment
          (λ name t. ground (arith, has name, laws.new-registered name, apart name)) in
      let (full, e2, _, calls) =
        laws.merges m' sponsorship
          (λ name t. ground (arith, has name, has' name, laws.new-registered name, apart' name)) in
      let (listed, answered) =
        laws.answers method_name (sponsorship_rpc it client modules) method_name-injective r in
      (
        full,
        ground arith,
        calls (method_name (method_of r)) r listed ∙ answered ∙ ap some (sponsorship_rpc-reply r),
        λ m h. method_name-injective m (method_of r) h,
      )
