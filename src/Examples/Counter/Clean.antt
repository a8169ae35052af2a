-- ===== src/Examples/Counter/Clean.antt =====
-- The runs of the counter (examples/counter/src) through the harness of its fuzz target.
use soro_fuzz.Base.{ℕ, ◌≡◌, refl, ap, ◌∙◌, some, List, [], ◌∷◌, Eq, All-trivial}
use soro_fuzz.Int.{pos, beq_ℤ_iff}
use soro_fuzz.Core.Auth.{get}
use soro_fuzz.Core.Auth.Resolve.{get_total}
use soro_fuzz.Core.Command.{ExecContext, Step, Run}
use soro_fuzz.Core.Adapter.{Sdk, InvariantCtx, passed}
use soro_fuzz.Core.Harness.{completed, Harness, run}
use soro_fuzz.Core.Harness.Rule.{Keeps, run_completed_rule}
use soro_fuzz.Examples.Host.{Host}
use soro_fuzz.Examples.Counter
use soro_fuzz.Examples.Counter.{Storage, overflow, underflow}
use soro_fuzz.Examples.Counter.Harness.{
  CounterModel, CounterCommand, apply_to_model, setup, execute_with, execute, adapter, check_value,
  counter_value_matches_model, invocation,
}
use soro_fuzz.Examples.Counter.Effects.{holding, effect}

module _ {Address : Type 0} ⦃e : Eq Address⦄ {sdk : Sdk Address}
    (host : Host sdk (Storage Address)) where
  -- The contract's count is the model's, and its admin is the pool's first address.
  record Agrees (ctx : ExecContext Address) (model : CounterModel) (env : sdk.Env) : Type 0 where
    admin : Address
    named : get ctx.addresses 0 ≡ some admin
    held : host.storage ctx.contract_id env ≡ holding admin model.expected_count

  check_passes :
      (ctx : InvariantCtx (adapter host)) (admin : Address)
      → host.storage ctx.contract_id ctx.env ≡ holding admin ctx.model.expected_count
      → check_value host ctx ≡ passed
  unfolding check_value Counter.get
  check_passes ctx admin h =
      rw
        (
          host.invoke_returns (invocation host ctx.contract_id "get" []) Counter.get ctx.env
              ctx.model.expected_count (holding admin ctx.model.expected_count) (rw h),
          check_value,
        )
        (rw ((beq_ℤ_iff ctx.model.expected_count ctx.model.expected_count).1 refl))

  -- The harness of the counter's tests and fuzz target, with any settings.
  abbrev pub harness : ℕ → ℕ → Harness (adapter host)
  harness commands pool = record {
    commands_per_run = commands;
    address_pool_size = pool;
    invariants = counter_value_matches_model host ∷ [];
  }

  keeps :
      (n m : ℕ) (ctx : ExecContext Address) (k : ℕ) (step : Step CounterCommand)
      (authorizers : List Address) (model : CounterModel) (env : sdk.Env)
      → Agrees ctx model env
      → Keeps (adapter host) (harness n m) Agrees ctx k step authorizers model env
  unfolding execute apply_to_model
  keeps n m ctx k step authorizers model env p =
      let x =
        effect host ctx.contract_id p.admin authorizers model.expected_count env p.held
          step.command in
      let env' = (execute_with host step.command ctx.contract_id p.admin authorizers env).1 in
      record {
        outcome = x.outcome;
        model' = x.model';
        env' = env';
        came_to = rw (p.named, execute) (ap (λ r. (r, env')) x.came_to);
        benign = x.benign;
        applied = x.applied;
        held = record { admin = p.admin; named = p.named; held = x.held };
        checked = (check_passes _ p.admin x.held, tt);
      }

  -- For any sequence of commands, whoever signs each of them and however the clock is advanced,
  -- the harness that checks `counter-value-matches-model` runs to the end: no command comes to an
  -- undeclared panic, and the contract's count is the model's after every step.
  pub counter_run_completed :
      (commands pool : ℕ) (r : Run CounterCommand)
      → run (adapter host) (harness commands pool) r ≡ completed
  unfolding setup Counter.constructor
  counter_run_completed commands pool r =
      run_completed_rule (adapter host) (harness commands pool) Agrees (λ _ _. Unit)
        (λ ctx t model env p. record {
          admin = p.admin;
          named = p.named;
          held = host.storage-set_timestamp ctx.contract_id t env ∙ p.held;
        })
        (λ addresses env nonempty.
          let (admin, named) = get_total addresses 0 nonempty in
          let made = host.register (Counter.constructor admin) env in
          (
            made.0,
            record { expected_count = pos 0 },
            made.1,
            rw (named, setup),
            record {
              admin = admin;
              named = named;
              held = host.storage-register (Counter.constructor admin) env;
            },
          ))
        (λ ctx k step authorizers model env nonempty q p.
          keeps commands pool ctx k step authorizers model env p)
        r (All-trivial r.steps)
