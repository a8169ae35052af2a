-- ===== src/Examples/Counter/Broken.antt =====
-- examples/counter/src/harness.rs, the module `broken_counter` of its tests: a counter whose
-- `increment` adds 2, with the commands, the model and the setup of the counter. All other functions
-- of its contract are spelled as those of the counter, and taken from there.
use soro_fuzz.Base.{ℕ, true, none, some, List, [], ◌∷◌, concat, Eq, unwrap_or, if◌then◌else◌}
use soro_fuzz.Int.{ℤ, pos, i64_min, i64_max, checked_add, as_i64, beq_ℤ, display}
use soro_fuzz.Core.Auth.{get}
use soro_fuzz.Core.Command.{Executed, ExecContext}
use soro_fuzz.Core.Adapter.{
  Sdk, ContractAdapter, InvariantCtx, Check, passed, failed, panicked, Invariant,
}
use soro_fuzz.Core.Harness.{Harness}
use soro_fuzz.Examples.Host.{
  Call, Host, int, no_address, try_call, ◌>>=◌, ◌>>◌, pure, ok_or, gets, modify,
}
use soro_fuzz.Examples.Counter
use soro_fuzz.Examples.Counter.{Storage, Error, overflow, code_of}
use soro_fuzz.Examples.Counter.Harness.{
  CounterModel, CounterCommand, increment, decrement, reset, set, apply_to_model, setup, invocation,
  gated,
}

unfoldable pub broken_increment : {Address : Type 0} → Call Address (Storage Address) ℤ Error
broken_increment = do
  count ← gets (λ s. unwrap_or s.count (pos 0))
  new_count ← ok_or (checked_add i64_min i64_max count (pos 2)) overflow
  modify (λ s. record s { count = some new_count })
  pure new_count

module _ {Address : Type 0} ⦃e : Eq Address⦄ {sdk : Sdk Address}
    (host : Host sdk (Storage Address)) where
  unfoldable pub broken_execute_with :
      CounterCommand → Address → Address → List Address → sdk.Env → Executed × sdk.Env
  unfolding gated
  broken_execute_with increment contract_id admin authorizers env =
      try_call host (invocation host contract_id "increment" []) broken_increment true code_of env
  broken_execute_with decrement contract_id admin authorizers env =
      try_call host (invocation host contract_id "decrement" []) Counter.decrement true code_of env
  broken_execute_with reset contract_id admin authorizers env =
      gated host admin (invocation host contract_id "reset" []) Counter.reset authorizers env
  broken_execute_with (set value) contract_id admin authorizers env =
      let v = as_i64 value.value in
      gated host admin (invocation host contract_id "set" (int v ∷ [])) (Counter.set v) authorizers
        env

  unfoldable pub broken_execute :
      CounterCommand → ExecContext Address → List Address → sdk.Env → Executed × sdk.Env
  broken_execute command ctx authorizers env = elim (get ctx.addresses 0) [
    | none ↦ (no_address, env)
    | some admin ↦ broken_execute_with command ctx.contract_id admin authorizers env
  ]

  abbrev pub broken_adapter : ContractAdapter sdk
  broken_adapter = record {
    Command = CounterCommand;
    Model = CounterModel;
    setup = setup host;
    execute = broken_execute;
    apply_to_model = apply_to_model;
  }

  unfoldable pub broken_check_value : InvariantCtx broken_adapter → Check
  broken_check_value ctx =
      elim (host.invoke (invocation host ctx.contract_id "get" []) Counter.get ctx.env) [
        | none ↦ panicked
        | some actual ↦
            if beq_ℤ actual ctx.model.expected_count
            then passed
            else failed (record {
              invariant = "counter-value-matches-model";
              message = concat (
                  "on-chain count "
                  ∷ display actual
                  ∷ " != model's expected count "
                  ∷ display ctx.model.expected_count
                  ∷ []);
              step_index = ctx.step_index;
            })
      ]

  abbrev pub broken_value_matches_model : Invariant broken_adapter
  broken_value_matches_model = record {
    name = "counter-value-matches-model";
    check = broken_check_value;
  }

  -- The harness of the tests, with any settings.
  abbrev pub broken_harness : ℕ → ℕ → Harness broken_adapter
  broken_harness commands pool = record {
    commands_per_run = commands;
    address_pool_size = pool;
    invariants = broken_value_matches_model ∷ [];
  }
