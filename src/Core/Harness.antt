-- ===== src/Core/Harness.antt =====
-- crates/core/src/harness.rs: the builder and the run loop.
pub mod Clean
pub mod Findings
pub mod Contained
pub mod Rule
use soro_fuzz.Base.{
  ℕ, suc, ◌+◌, ◌-◌, ◌^◌, min, max, Option, none, some, List, [], ◌∷◌, ◌++◌, take, String, Eq,
}
use soro_fuzz.Core.Auth.{AddressPool, generate, resolve}
use soro_fuzz.Core.Command.{
  Outcome, undeclared_panic, Payload, str, string, other, Executed, returned, unwound, ExecContext,
  Step, Run,
}
use soro_fuzz.Core.Adapter.{
  Sdk, ContractAdapter, InvariantCtx, Violation, Check, passed, failed, panicked, Invariant,
}

abbrev pub default_commands_per_run : ℕ
default_commands_per_run = 32

abbrev pub default_address_pool_size : ℕ
default_address_pool_size = 4

unfoldable pub panic_message : Payload → String
panic_message (str s) = s
panic_message (string s) = s
panic_message other = "non-string panic payload"

-- The `match` on `catch_unwind`.
unfoldable pub outcome_of : Executed → Outcome
outcome_of (returned outcome) = outcome
outcome_of (unwound payload) = undeclared_panic (panic_message payload)

abbrev pub u64_max : ℕ
u64_max = 2 ^ 64 - 1

unfoldable pub saturating_add_u64 : ℕ → ℕ → ℕ
saturating_add_u64 a b = min (a + b) u64_max

-- How `Harness::run` ends: `Ok(())`, `Err(violation)`, or a panic that nothing catches.
pub data RunEnd : Type 0 where
  completed : RunEnd
  violated : Violation → RunEnd
  escaped : RunEnd

module _ {Address : Type 0} ⦃e : Eq Address⦄ {sdk : Sdk Address} where
  pub record Harness (a : ContractAdapter sdk) : Type 0 where
    pub commands_per_run : ℕ
    pub address_pool_size : ℕ
    pub invariants : List (Invariant a)

  unfoldable pub new : {a : ContractAdapter sdk} → Harness a
  new = record {
    commands_per_run = default_commands_per_run;
    address_pool_size = default_address_pool_size;
    invariants = [];
  }

  module _ {a : ContractAdapter sdk} where
    unfoldable pub set_commands_per_run : ℕ → Harness a → Harness a
    set_commands_per_run n h = record h { commands_per_run = max n 1 }

    unfoldable pub set_address_pool_size : ℕ → Harness a → Harness a
    set_address_pool_size n h = record h { address_pool_size = max n 1 }

    unfoldable pub with_invariant : Invariant a → Harness a → Harness a
    with_invariant i h = record h { invariants = h.invariants ++ (i ∷ []) }

  module _ (a : ContractAdapter sdk) where
    -- `step.advance_time`, applied to the ledger before the command runs.
    unfoldable pub advance : Option ℕ → sdk.Env → sdk.Env
    advance none env = env
    advance (some secs) env = sdk.set_timestamp (saturating_add_u64 (sdk.timestamp env) secs) env

    -- The loop over the invariants, up to the first that does not pass.
    unfoldable pub check_all : List (Invariant a) → InvariantCtx a → RunEnd
    check_all [] ctx = completed
    check_all (i ∷ is) ctx = elim (i.check ctx) [
      | passed ↦ check_all is ctx
      | failed violation ↦ violated violation
      | panicked ↦ escaped
    ]

    -- What a step leaves: the model and the host for the next one, or the end of the run.
    pub data StepEnd : Type 0 where
      next : a.Model → sdk.Env → StepEnd
      stop : RunEnd → StepEnd

    -- The model of the next step, unless the checks have ended the run.
    unfoldable pub proceed : RunEnd → a.Model → sdk.Env → StepEnd
    proceed completed model env = next model env
    proceed (violated v) model env = stop (violated v)
    proceed escaped model env = stop escaped

    -- The part of a step after the command has run, by its outcome.
    module _ (h : Harness a) (ctx : ExecContext Address) (step_index : ℕ) (command : a.Command)
        (authorizers : List Address) where
      -- The model is updated, and the invariants are checked on what that gives.
      unfoldable pub settle : Outcome → Option a.Model → sdk.Env → StepEnd
      settle outcome none env = stop escaped
      settle outcome (some model) env =
          proceed
            (check_all h.invariants (record {
              env = env;
              contract_id = ctx.contract_id;
              model = model;
              command = command;
              last_outcome = outcome;
              authorizers = authorizers;
              addresses = ctx.addresses;
              step_index = step_index;
            }))
            model env

      unfoldable pub conclude : Outcome → a.Model → sdk.Env → StepEnd
      conclude (undeclared_panic message) model env = stop (
          violated (record {
            invariant = "no-undeclared-panic";
            message = message;
            step_index = step_index;
          }))
      conclude outcome model env =
          settle outcome (a.apply_to_model command model ctx.addresses outcome) env

    module _ (h : Harness a) (ctx : ExecContext Address) where
      unfoldable pub run_step : ℕ → Step a.Command → a.Model → sdk.Env → StepEnd
      run_step step_index step model env = elim (resolve ctx.addresses step.authorized) [
        | none ↦ stop escaped
        | some authorizers ↦
            let (executed, env') =
              a.execute step.command ctx authorizers (advance step.advance_time env) in
            conclude h ctx step_index step.command authorizers (outcome_of executed) model env'
      ]

      -- The loop over the steps that are left, of which the first has the given index.
      unfoldable pub run_from : ℕ → List (Step a.Command) → a.Model → sdk.Env → RunEnd
      run_from step_index [] model env = completed
      run_from step_index (step ∷ steps) model env = elim (run_step step_index step model env) [
        | next model' env' ↦ run_from (suc step_index) steps model' env'
        | stop end ↦ end
      ]

    -- The body of `Harness::run` behind `truncate`.
    unfoldable pub run_all : Harness a → List (Step a.Command) → RunEnd
    run_all h steps =
        let (addresses, env) = generate sdk.generate_address h.address_pool_size sdk.default in
        elim (a.setup addresses env) [
          | none ↦ escaped
          | some (contract_id, model, env') ↦
              run_from h (record { contract_id = contract_id; addresses = addresses }) 0 steps model
                env'
        ]

    unfoldable pub run : Harness a → Run a.Command → RunEnd
    run h r = run_all h (take h.commands_per_run r.steps)
