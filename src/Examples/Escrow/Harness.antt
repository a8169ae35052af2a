-- ===== src/Examples/Escrow/Harness.antt =====
-- examples/escrow/src/harness.rs: what wires the escrow into the engine.
use soro_fuzz.Base.{ℕ, true, Option, none, some, List, [], ◌∷◌, String, concat, Eq, if◌then◌else◌}
use soro_fuzz.Int.{int_eq}
use soro_fuzz.Strategies.Amounts.{NonNegativeI128}
use soro_fuzz.Strategies.Time.{TimeAdvance}
use soro_fuzz.Core.Auth.{AddressPool, get}
use soro_fuzz.Core.Command.{Outcome, is_ok, Executed, returned, ExecContext}
use soro_fuzz.Core.Adapter.{
  Sdk, ContractAdapter, InvariantCtx, Check, passed, failed, panicked, Invariant,
}
use soro_fuzz.Core.Harness.{saturating_add_u64}
use soro_fuzz.Examples.Host.{
  Call, Invocation, Val, int, Host, no_address, try_call, mock_single_auth,
}
use soro_fuzz.Examples.Escrow
use soro_fuzz.Examples.Escrow.{Storage, Status, code_of, same_status}

abbrev pub depositor_index : ℕ
depositor_index = 0

abbrev pub beneficiary_index : ℕ
beneficiary_index = 1

abbrev pub deadline_offset_secs : ℕ
deadline_offset_secs = 1000

pub data ModelStatus : Type 0 where
  empty deposited released refunded : ModelStatus

pub record EscrowModel (Address : Type 0) : Type 0 where
  pub depositor : Address
  pub status : ModelStatus

pub data EscrowCommand : Type 0 where
  deposit : NonNegativeI128 → EscrowCommand
  release refund : EscrowCommand
  advance_time : TimeAdvance → EscrowCommand

module _ {Address : Type 0} where
  unfoldable pub apply_ok : EscrowCommand → EscrowModel Address → EscrowModel Address
  apply_ok (deposit amount) model = record model { status = deposited }
  apply_ok release model = record model { status = released }
  apply_ok refund model = record model { status = refunded }
  apply_ok (advance_time advance) model = model

  -- It never panics.
  unfoldable pub apply_to_model :
      EscrowCommand
      → EscrowModel Address
      → AddressPool Address
      → Outcome
      → Option (EscrowModel Address)
  apply_to_model command model addresses outcome =
      some (if is_ok outcome then apply_ok command model else model)

-- The `match` of `check`: what the contract's status should be.
unfoldable pub expected : ModelStatus → Status
expected empty = Status.empty
expected deposited = Status.deposited
expected released = Status.released
expected refunded = Status.refunded

-- `Debug` of `Status`
unfoldable pub debug_status : Status → String
debug_status Status.empty = "Empty"
debug_status Status.deposited = "Deposited"
debug_status Status.released = "Released"
debug_status Status.refunded = "Refunded"

module _ {Address : Type 0} ⦃e : Eq Address⦄ {sdk : Sdk Address}
    (host : Host sdk (Storage Address)) where
  unfoldable pub setup_with : Address → Address → sdk.Env → Address × EscrowModel Address × sdk.Env
  setup_with depositor beneficiary env =
      let deadline = saturating_add_u64 (sdk.timestamp env) deadline_offset_secs in
      let (contract_id, env') =
        host.register (Escrow.constructor depositor beneficiary deadline) env in
      (contract_id, record { depositor = depositor; status = empty }, env')

  unfoldable pub setup :
      AddressPool Address → sdk.Env → Option (Address × EscrowModel Address × sdk.Env)
  setup addresses env = elim (get addresses depositor_index) [
    | none ↦ none
    | some depositor ↦ elim (get addresses beneficiary_index) [
      | none ↦ none
      | some beneficiary ↦ some (setup_with depositor beneficiary env)
    ]
  ]

  abbrev pub invocation : Address → String → List (Val Address) → Invocation Address
  invocation contract_id fn_name args = record {
    contract = contract_id;
    fn_name = fn_name;
    args = args;
  }

  -- A depositor-gated call: the auth is mocked if the depositor signed, then the call is made.
  unfoldable pub gated :
      Address
      → Invocation Address
      → Call Address (Storage Address) (Unit {0}) Escrow.Error
      → List Address
      → sdk.Env
      → Executed × sdk.Env
  gated depositor i f authorizers env =
      let (auth_satisfied, env') = mock_single_auth host depositor i authorizers env in
      try_call host i f auth_satisfied code_of env'

  unfoldable pub execute_with :
      EscrowCommand → Address → Address → List Address → sdk.Env → Executed × sdk.Env
  execute_with (deposit amount) contract_id depositor authorizers env =
      gated depositor (invocation contract_id "deposit" (int amount.value ∷ []))
        (Escrow.deposit amount.value) authorizers env
  execute_with release contract_id depositor authorizers env =
      gated depositor (invocation contract_id "release" []) Escrow.release authorizers env
  execute_with refund contract_id depositor authorizers env =
      try_call host (invocation contract_id "refund" []) Escrow.refund true code_of env
  execute_with (advance_time advance) contract_id depositor authorizers env = (
    returned Outcome.ok,
    sdk.set_timestamp (saturating_add_u64 (sdk.timestamp env) advance.secs) env,
  )

  unfoldable pub execute :
      EscrowCommand → ExecContext Address → List Address → sdk.Env → Executed × sdk.Env
  execute command ctx authorizers env = elim (get ctx.addresses depositor_index) [
    | none ↦ (no_address, env)
    | some depositor ↦ execute_with command ctx.contract_id depositor authorizers env
  ]

  abbrev pub adapter : ContractAdapter sdk
  adapter = record {
    Command = EscrowCommand;
    Model = EscrowModel Address;
    setup = setup;
    execute = execute;
    apply_to_model = apply_to_model;
  }

  -- The on-chain status, read by the client.
  unfoldable pub check_status : InvariantCtx adapter → Check
  check_status ctx =
      elim (host.invoke (invocation ctx.contract_id "status" []) Escrow.status_of ctx.env) [
        | none ↦ panicked
        | some actual ↦
            let wanted = expected ctx.model.status in
            if same_status actual wanted
            then passed
            else failed (record {
              invariant = "escrow-status-matches-model";
              message = concat (
                  "on-chain status "
                  ∷ debug_status actual
                  ∷ " != model status "
                  ∷ debug_status wanted
                  ∷ []);
              step_index = ctx.step_index;
            })
      ]

  abbrev pub escrow_status_matches_model : Invariant adapter
  escrow_status_matches_model = record {
    name = "escrow-status-matches-model";
    check = check_status;
  }
