-- ===== src/Core/Adapter.antt =====
-- crates/core/src/adapter.rs, model.rs and invariant.rs: the traits that a contract implements.
-- The host environment, `soroban_sdk::Env`, is the record `Sdk`.
use soro_fuzz.Base.{ℕ, List, Option, ◌≡◌, String, ◌∷◌, [], concat, display_ℕ}
use soro_fuzz.Core.Auth.{AddressPool}
use soro_fuzz.Core.Command.{Outcome, Executed, ExecContext}

-- What the engine uses of the SDK: a fresh host, new addresses, and the ledger's clock, which
-- reads what it was last set to.
pub record Sdk (Address : Type 0) : Type 1 where
  pub Env : Type 0
  pub default : Env
  pub generate_address : Env → Address × Env
  pub timestamp : Env → ℕ
  pub set_timestamp : ℕ → Env → Env
  pub timestamp-set_timestamp : (t : ℕ) (env : Env) → timestamp (set_timestamp t env) ≡ t

-- `ContractAdapter`, with the two methods of its `Command`. Every method that reaches the host
-- returns the host it leaves; `apply_to_model` is `none` where it panics.
pub record ContractAdapter {Address : Type 0} (sdk : Sdk Address) : Type 1 where
  pub Command : Type 0
  pub Model : Type 0
  pub setup : AddressPool Address → sdk.Env → Option (Address × Model × sdk.Env)
  pub execute : Command → ExecContext Address → List Address → sdk.Env → Executed × sdk.Env
  pub apply_to_model : Command → Model → AddressPool Address → Outcome → Option Model

pub record InvariantCtx {Address : Type 0} {sdk : Sdk Address} (a : ContractAdapter sdk)
    : Type 0 where
  pub env : sdk.Env
  pub contract_id : Address
  pub model : a.Model
  pub command : a.Command
  pub last_outcome : Outcome
  pub authorizers : List Address
  pub addresses : AddressPool Address
  pub step_index : ℕ

pub record Violation : Type 0 where
  pub invariant : String
  pub message : String
  pub step_index : ℕ

-- `Display` of a violation
unfoldable pub display_violation : Violation → String
display_violation v = concat (
    "invariant `"
    ∷ v.invariant
    ∷ "` violated at step "
    ∷ display_ℕ v.step_index
    ∷ ": "
    ∷ v.message
    ∷ [])

-- A check returns, or it panics itself.
pub data Check : Type 0 where
  passed : Check
  failed : Violation → Check
  panicked : Check

pub record Invariant {Address : Type 0} {sdk : Sdk Address} (a : ContractAdapter sdk) : Type 0 where
  pub name : String
  pub check : InvariantCtx a → Check
