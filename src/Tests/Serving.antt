-- ===== src/Tests/Serving.antt =====
-- A request to the node at a concrete input.
use Prim.Native.String.{String}
use text.Mathlib.Text.{starts_with, ◌==◌ as str_eq}
use text.Mathlib.TextPositions.{eq_refl}
use gas_leap.Base.{
  ℕ, ◌≡◌, refl, Bool, true, false, not, ◌&&◌, ◌||◌, Option, none, some, Result, ok, if◌then◌else◌,
  arith,
}
use gas_leap.Pallet.Queries.{get_pool_transaction_history}
use gas_leap.Api.Rpc.{RpcError}
use gas_leap.Node.Rpc.{
  Method, pool_by_id, pools_by_owner, transaction_history, gas_savings, gas_estimate, method_of,
  Request, get_transaction_history, Reply, history, Modules, ModuleLaws, method_name, create_full,
}
use gas_leap.Node.Rpc.Serving.{create_full_serves}
use gas_leap.Tests.Setting.{order}
use gas_leap.Tests.Scenario.{ready}
use gas_leap.Tests.Apis.{client}

-- A module by the names it has and what it answers.
record Served : Type 0 where
  has : String → Bool
  reply : String → Request ℕ → Option (Result (RpcError ℕ) Reply)

abbrev sponsors : (Method → String) → String → Bool
sponsors names name =
    str_eq name (names pool_by_id)
    || str_eq name (names pools_by_owner)
    || str_eq name (names transaction_history)
    || str_eq name (names gas_savings)
    || str_eq name (names gas_estimate)

abbrev merged : Served → Served → Served
merged m n = record {
  has = λ name. m.has name || n.has name;
  reply = λ name r. if n.has name then n.reply name r else m.reply name r;
}

abbrev modules : Modules Served ℕ String ℕ
modules = record {
  new = record { has = λ name. false; reply = λ name r. none };
  merge = λ m n. ok (merged m n);
  registered = λ m. m.has;
  call = λ m. m.reply;
  into_rpc = λ names f. record {
    has = sponsors names;
    reply = λ name r. if str_eq name (names (method_of r)) then some (f r) else none;
  };
}

merged-reply :
    (m n : Served) (name : String) (r : Request ℕ)
    → n.has name ≡ true
    → (merged m n).reply name r ≡ n.reply name r
merged-reply m n name r h = rw h refl

named : (names : Method → String) (m : Method) → sponsors names (names m) ≡ true
named names pool_by_id = ground (arith, eq_refl (names pool_by_id))
named names pools_by_owner = ground (arith, eq_refl (names pools_by_owner))
named names transaction_history = ground (arith, eq_refl (names transaction_history))
named names gas_savings = ground (arith, eq_refl (names gas_savings))
named names gas_estimate = ground (arith, eq_refl (names gas_estimate))

modules-ModuleLaws : ModuleLaws modules
modules-ModuleLaws = record {
  new-registered = λ name. refl;
  merges = λ m n apart. (merged m n, refl, λ name. refl, merged-reply m n);
  answers =
      λ names f distinct r. (named names (method_of r), rw (eq_refl (names (method_of r))) refl);
}

abbrev system : Served
system = record {
  has = λ name. starts_with name "system_" && not (sponsors method_name name);
  reply = λ name r. none;
}

abbrev transaction_payment : Served
transaction_payment = record {
  has = λ name.
      starts_with name "payment_" && not (starts_with name "system_" || sponsors method_name name);
  reply = λ name r. none;
}

apart : (name : String) → system.has name ≡ true → transaction_payment.has name ≡ false
apart name h = ground arith

apart_both :
    (name : String)
    → (system.has name || transaction_payment.has name) ≡ true
    → sponsors method_name name ≡ false
apart_both name h = ground arith

-- The history of pool 0, with no limit and no block named.
create_full_serves_example :
    (full : Served) × (create_full order client modules system transaction_payment ≡ ok full)
    × (full.reply (method_name transaction_history) (get_transaction_history 0 none none)
        ≡ some (ok (history (get_pool_transaction_history order ready.storage 0 50))))
    × ((m : Method) → method_name m ≡ method_name transaction_history → m ≡ transaction_history)
create_full_serves_example =
    create_full_serves order client modules modules-ModuleLaws system transaction_payment
      (get_transaction_history 0 none none) apart apart_both
