-- ===== src/Examples/Escrow/Clean.antt =====
-- The runs of the escrow (examples/escrow/src) through the harness of its fuzz target.
use soro_fuzz.Base.{ℕ, ◌≡◌, refl, ap, ◌∙◌, true, some, List, [], ◌∷◌, Eq, All-trivial}
use soro_fuzz.Int.{ℤ, pos}
use soro_fuzz.Core.Auth.{get}
use soro_fuzz.Core.Auth.Resolve.{get_total}
use soro_fuzz.Core.Command.{ExecContext, Step, Run}
use soro_fuzz.Core.Adapter.{Sdk, InvariantCtx, passed}
use soro_fuzz.Core.Harness.{completed, Harness, run, saturating_add_u64}
use soro_fuzz.Core.Harness.Rule.{Keeps, run_completed_rule}
use soro_fuzz.Examples.Host.{Host}
use soro_fuzz.Examples.Escrow
use soro_fuzz.Examples.Escrow.{Storage}
use soro_fuzz.Examples.Escrow.Harness.{
  depositor_index, beneficiary_index, deadline_offset_secs, ModelStatus, empty, deposited, released,
  refunded, EscrowModel, EscrowCommand, apply_to_model, expected, setup, setup_with, execute_with,
  execute, adapter, check_status, escrow_status_matches_model, invocation,
}
use soro_fuzz.Examples.Escrow.Machine.{holding}
use soro_fuzz.Examples.Escrow.Effects.{effect}

same_status-expected : (s : ModelStatus) → Escrow.same_status (expected s) (expected s) ≡ true
unfolding expected
same_status-expected empty = refl
same_status-expected deposited = refl
same_status-expected released = refl
same_status-expected refunded = refl

module _ {Address : Type 0} ⦃e : Eq Address⦄ {sdk : Sdk Address}
    (host : Host sdk (Storage Address)) where
  -- The contract's depositor is the pool's first address, and its status is the model's.
  record Agrees (ctx : ExecContext Address) (model : EscrowModel Address) (env : sdk.Env)
      : Type 0 where
    depositor : Address
    beneficiary : Address
    deadline : ℕ
    amount : ℤ
    named : get ctx.addresses depositor_index ≡ some depositor
    held :
        host.storage ctx.contract_id env
        ≡ holding depositor beneficiary deadline (expected model.status) amount

  check_passes :
      (ctx : InvariantCtx (adapter host)) (d b : Address) (deadline : ℕ) (amount : ℤ)
      → host.storage ctx.contract_id ctx.env
        ≡ holding d b deadline (expected ctx.model.status) amount
      → check_status host ctx ≡ passed
  unfolding check_status Escrow.status_of
  check_passes ctx d b deadline amount h =
      let s = holding d b deadline (expected ctx.model.status) amount in
      rw
        (
          host.invoke_returns (invocation host ctx.contract_id "status" []) Escrow.status_of ctx.env
              (expected ctx.model.status) s (rw h),
          check_status,
        )
        (rw (same_status-expected ctx.model.status))

  -- The harness of the escrow's tests and fuzz target, with any settings.
  abbrev pub harness : ℕ → ℕ → Harness (adapter host)
  harness commands pool = record {
    commands_per_run = commands;
    address_pool_size = pool;
    invariants = escrow_status_matches_model host ∷ [];
  }

  keeps :
      (n m : ℕ) (ctx : ExecContext Address) (k : ℕ) (step : Step EscrowCommand)
      (authorizers : List Address) (model : EscrowModel Address) (env : sdk.Env)
      → Agrees ctx model env
      → Keeps (adapter host) (harness n m) Agrees ctx k step authorizers model env
  unfolding execute apply_to_model
  keeps n m ctx k step authorizers model env p =
      let x =
        effect host ctx.contract_id p.depositor p.beneficiary p.deadline model p.amount authorizers
          env p.held step.command in
      let env' = (execute_with host step.command ctx.contract_id p.depositor authorizers env).1 in
      record {
        outcome = x.outcome;
        model' = x.model';
        env' = env';
        came_to = rw (p.named, execute) (ap (λ r. (r, env')) x.came_to);
        benign = x.benign;
        applied = x.applied;
        held = record {
          depositor = p.depositor;
          beneficiary = p.beneficiary;
          deadline = p.deadline;
          amount = x.amount';
          named = p.named;
          held = x.held;
        };
        checked = (check_passes _ p.depositor p.beneficiary p.deadline x.amount' x.held, tt);
      }

  -- For any sequence of commands, whoever signs each of them and however the clock is advanced,
  -- the harness that checks `escrow-status-matches-model` runs to the end: no command comes to an
  -- undeclared panic, and the contract's status is the model's after every step.
  pub escrow_run_completed :
      (commands pool : ℕ) (r : Run EscrowCommand)
      → run (adapter host) (harness commands pool) r ≡ completed
  unfolding setup setup_with Escrow.constructor expected
  escrow_run_completed commands pool r =
      run_completed_rule (adapter host) (harness commands pool) Agrees (λ _ _. Unit)
        (λ ctx t model env p. record {
          depositor = p.depositor;
          beneficiary = p.beneficiary;
          deadline = p.deadline;
          amount = p.amount;
          named = p.named;
          held = host.storage-set_timestamp ctx.contract_id t env ∙ p.held;
        })
        (λ addresses env nonempty.
          let (d, named) = get_total addresses depositor_index nonempty in
          let (b, named') = get_total addresses beneficiary_index nonempty in
          let deadline = saturating_add_u64 (sdk.timestamp env) deadline_offset_secs in
          let (id, model, made) = setup_with host d b env in
          (
            id,
            model,
            made,
            rw (named, setup) (rw (named', setup)),
            record {
              depositor = d;
              beneficiary = b;
              deadline = deadline;
              amount = pos 0;
              named = named;
              held = host.storage-register (Escrow.constructor d b deadline) env;
            },
          ))
        (λ ctx k step authorizers model env nonempty q p.
          keeps commands pool ctx k step authorizers model env p)
        r (All-trivial r.steps)
