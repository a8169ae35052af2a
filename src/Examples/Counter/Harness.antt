-- ===== src/Examples/Counter/Harness.antt =====
-- examples/counter/src/harness.rs: what wires the counter into the engine.
use soro_fuzz.Base.{true, Option, none, some, List, [], ◌∷◌, String, concat, Eq, if◌then◌else◌}
use soro_fuzz.Int.{ℤ, pos, i64_min, i64_max, saturating_add, saturating_sub, as_i64, beq_ℤ, display}
use soro_fuzz.Strategies.Amounts.{BoundedI128}
use soro_fuzz.Core.Auth.{AddressPool, get}
use soro_fuzz.Core.Command.{Outcome, is_ok, Executed, ExecContext}
use soro_fuzz.Core.Adapter.{
  Sdk, ContractAdapter, InvariantCtx, Check, passed, failed, panicked, Invariant,
}
use soro_fuzz.Examples.Host.{
  Call, Invocation, Val, int, Host, no_address, try_call, mock_single_auth,
}
use soro_fuzz.Examples.Counter
use soro_fuzz.Examples.Counter.{Storage, code_of}

pub record CounterModel : Type 0 where
  pub expected_count : ℤ  -- i64

abbrev pub SetValue : Type 0
SetValue = BoundedI128 i64_min i64_max

pub data CounterCommand : Type 0 where
  increment decrement reset : CounterCommand
  set : SetValue → CounterCommand

unfoldable pub apply_ok : CounterCommand → CounterModel → CounterModel
apply_ok increment model = record {
  expected_count = saturating_add i64_min i64_max model.expected_count (pos 1);
}
apply_ok decrement model = record {
  expected_count = saturating_sub i64_min i64_max model.expected_count (pos 1);
}
apply_ok reset model = record { expected_count = pos 0 }
apply_ok (set value) model = record { expected_count = as_i64 value.value }

-- It has no arithmetic that can overflow, so it never panics.
unfoldable pub apply_to_model :
    {Address : Type 0}
    → CounterCommand
    → CounterModel
    → AddressPool Address
    → Outcome
    → Option CounterModel
apply_to_model command model addresses outcome =
    some (if is_ok outcome then apply_ok command model else model)

module _ {Address : Type 0} ⦃e : Eq Address⦄ {sdk : Sdk Address}
    (host : Host sdk (Storage Address)) where
  unfoldable pub setup : AddressPool Address → sdk.Env → Option (Address × CounterModel × sdk.Env)
  setup addresses env = elim (get addresses 0) [
    | none ↦ none
    | some admin ↦
        let (contract_id, env') = host.register (Counter.constructor admin) env in
        some (contract_id, record { expected_count = pos 0 }, env')
  ]

  abbrev pub invocation : Address → String → List (Val Address) → Invocation Address
  invocation contract_id fn_name args = record {
    contract = contract_id;
    fn_name = fn_name;
    args = args;
  }

  -- An admin-gated call: the auth is mocked if the admin signed, then the call is made.
  unfoldable pub gated :
      Address
      → Invocation Address
      → Call Address (Storage Address) ℤ Counter.Error
      → List Address
      → sdk.Env
      → Executed × sdk.Env
  gated admin i f authorizers env =
      let (auth_satisfied, env') = mock_single_auth host admin i authorizers env in
      try_call host i f auth_satisfied code_of env'

  unfoldable pub execute_with :
      CounterCommand → Address → Address → List Address → sdk.Env → Executed × sdk.Env
  unfolding gated
  execute_with increment contract_id admin authorizers env =
      try_call host (invocation contract_id "increment" []) Counter.increment true code_of env
  execute_with decrement contract_id admin authorizers env =
      try_call host (invocation contract_id "decrement" []) Counter.decrement true code_of env
  execute_with reset contract_id admin authorizers env =
      gated admin (invocation contract_id "reset" []) Counter.reset authorizers env
  execute_with (set value) contract_id admin authorizers env =
      let v = as_i64 value.value in
      gated admin (invocation contract_id "set" (int v ∷ [])) (Counter.set v) authorizers env

  unfoldable pub execute :
      CounterCommand → ExecContext Address → List Address → sdk.Env → Executed × sdk.Env
  execute command ctx authorizers env = elim (get ctx.addresses 0) [
    | none ↦ (no_address, env)
    | some admin ↦ execute_with command ctx.contract_id admin authorizers env
  ]

  abbrev pub adapter : ContractAdapter sdk
  adapter = record {
    Command = CounterCommand;
    Model = CounterModel;
    setup = setup;
    execute = execute;
    apply_to_model = apply_to_model;
  }

  -- The on-chain count, read by the client.
  unfoldable pub check_value : InvariantCtx adapter → Check
  check_value ctx = elim (host.invoke (invocation ctx.contract_id "get" []) Counter.get ctx.env) [
    | none ↦ panicked
    | some actual ↦
        if beq_ℤ actual ctx.model.expected_count
        then passed
        else failed (record {
          invariant = "counter-value-matches-model";
          message = concat (
              "on-chain count "
              ∷ display actual
              ∷ " != model's expected count "
              ∷ display ctx.model.expected_count
              ∷ []);
          step_index = ctx.step_index;
        })
  ]

  abbrev pub counter_value_matches_model : Invariant adapter
  counter_value_matches_model = record { name = "counter-value-matches-model"; check = check_value }
