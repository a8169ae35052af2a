-- ===== src/Examples/Counter/Caught.antt =====
-- The harness finds the broken counter of examples/counter/src/harness.rs.
use soro_fuzz.Base.{
  arith, inl, inr, Bool-cases, Option-cases, ℕ, suc, ◌≡◌, refl, ap, ◌∙◌, true, Option, some, List,
  [], ◌∷◌, Eq, display_ℕ,
}
use soro_fuzz.Int.{beq_ℤ, pos, ◌+ℤ◌, display}
use soro_fuzz.Core.Auth.{AuthSelection, generate, get, resolve}
use soro_fuzz.Core.Auth.Resolve.{IsNonempty, generate-IsNonempty, get_total, resolve_signers}
use soro_fuzz.Core.Command.{Outcome, is_ok, returned, ExecContext, Step}
use soro_fuzz.Core.Adapter.{Sdk, Violation, InvariantCtx, passed, failed, panicked}
use soro_fuzz.Core.Harness.{
  completed, escaped, violated, outcome_of, advance, check_all, proceed, settle, conclude, run_step,
  run_from, run_all, run, stop, StepEnd,
}
use soro_fuzz.Core.Harness.Clean.{observation}
use soro_fuzz.Core.Harness.Findings.{IsHonest}
use soro_fuzz.Core.Harness.Rule.{advance_holds}
use soro_fuzz.Examples.Host.{Host}
use soro_fuzz.Examples.Host.Calls.{try_call-returns}
use soro_fuzz.Examples.Counter
use soro_fuzz.Examples.Counter.{Storage, code_of}
use soro_fuzz.Examples.Counter.Harness.{
  CounterCommand, increment, apply_to_model, apply_ok, setup, invocation,
}
use soro_fuzz.Examples.Counter.Effects.{holding}
use soro_fuzz.Examples.Counter.Broken.{
  broken_value_matches_model, broken_increment, broken_execute_with, broken_execute, broken_adapter,
  broken_check_value, broken_harness,
}

-- What the harness reports.
abbrev pub divergence : ℕ → Violation
divergence index = record {
  invariant = "counter-value-matches-model";
  message = "on-chain count 2 != model's expected count 1";
  step_index = index;
}

abbrev pub incrementing : AuthSelection → Option ℕ → Step CounterCommand
incrementing authorized advance_time = record {
  command = increment;
  authorized = authorized;
  advance_time = advance_time;
}

module _ {Address : Type 0} ⦃e : Eq Address⦄ {sdk : Sdk Address}
    (host : Host sdk (Storage Address)) where
  -- From a count of 0 the broken contract comes to 2.
  lands_on_two :
      (id admin : Address) (authorizers : List Address) (env : sdk.Env)
      → host.storage id env ≡ holding admin (pos 0)
      → ((broken_execute_with host increment id admin authorizers env).0 ≡ returned Outcome.ok)
        × (host.storage id (broken_execute_with host increment id admin authorizers env).1
            ≡ holding admin (pos 2))
  unfolding broken_execute_with broken_increment ◌+ℤ◌
  lands_on_two id admin authorizers env h =
      try_call-returns host (invocation host id "increment" []) broken_increment true code_of env
        (pos 2) (holding admin (pos 2)) (rw h refl)

  check_fails :
      (ctx : InvariantCtx (broken_adapter host)) (admin : Address)
      → host.storage ctx.contract_id ctx.env ≡ holding admin (pos 2)
      → ctx.model ≡ record { expected_count = pos 1 }
      → broken_check_value host ctx ≡ failed (divergence ctx.step_index)
  unfolding broken_check_value Counter.get display display_ℕ
  check_fails ctx admin h model =
      rw
        (
          host.invoke_returns (invocation host ctx.contract_id "get" []) Counter.get ctx.env (pos 2)
              (holding admin (pos 2)) (rw h refl),
          broken_check_value,
        )
        (rw model refl)

  module _ (commands pool : ℕ) (ctx : ExecContext Address) (admin : Address)
      (authorized : AuthSelection) (advance_time : Option ℕ) (authorizers : List Address) where
    abbrev concluded : Outcome → sdk.Env → StepEnd (broken_adapter host)
    concluded outcome env =
        conclude (broken_adapter host) (broken_harness host commands pool) ctx 0 increment
          authorizers outcome (record { expected_count = pos 0 }) env

    conclude_caught :
        (env : sdk.Env)
        → host.storage ctx.contract_id env ≡ holding admin (pos 2)
        → concluded Outcome.ok env ≡ stop (violated (divergence 0))
    unfolding conclude settle proceed check_all apply_to_model apply_ok is_ok ◌+ℤ◌
    conclude_caught env h =
        ap
          (λ c.
            proceed (broken_adapter host)
              (elim c [
                | passed ↦ completed
                | failed violation ↦ violated violation
                | panicked ↦ escaped
              ])
              (record { expected_count = pos 1 }) env)
          (check_fails
            (observation (broken_adapter host) (broken_harness host commands pool) ctx 0
              (incrementing authorized advance_time) authorizers Outcome.ok
              (record { expected_count = pos 1 }) env)
            admin h refl)

    step_caught :
        (env : sdk.Env)
        → get ctx.addresses 0 ≡ some admin
        → resolve ctx.addresses authorized ≡ some authorizers
        → host.storage ctx.contract_id env ≡ holding admin (pos 0)
        → run_step
            (broken_adapter host)
            (broken_harness host commands pool)
            ctx
            0
            (incrementing authorized advance_time)
            (record { expected_count = pos 0 })
            env
          ≡ stop (violated (divergence 0))
    unfolding run_step broken_execute outcome_of
    step_caught env named found h =
        let env' = advance (broken_adapter host) advance_time env in
        let held =
          advance_holds (broken_adapter host) (broken_harness host commands pool)
            (λ w. host.storage ctx.contract_id w ≡ holding admin (pos 0))
            (λ t w p. host.storage-set_timestamp ctx.contract_id t w ∙ p) advance_time env h in
        let (came, left) = lands_on_two ctx.contract_id admin authorizers env' held in
        let done = broken_execute_with host increment ctx.contract_id admin authorizers env' in
        let executed : broken_execute host increment ctx authorizers env' ≡ done =
          rw (named, broken_execute) refl in
        rw (found, run_step)
          (ap (λ x. concluded (outcome_of x.0) x.1) executed
            ∙ ap (λ o. concluded (outcome_of o) done.1) came
            ∙ conclude_caught done.1 left)

  -- Whoever signs an increment and however the clock is advanced before it, a run of the broken
  -- counter that begins with it, with any steps behind it, is found out at step 0 by
  -- `counter-value-matches-model`.
  pub broken_run_violated :
      (commands pool : ℕ) (authorized : AuthSelection) (advance_time : Option ℕ)
      (rest : List (Step CounterCommand))
      → run
          (broken_adapter host)
          (broken_harness host (suc commands) pool)
          (record { steps = incrementing authorized advance_time ∷ rest })
        ≡ violated (divergence 0)
  unfolding run run_all setup Counter.constructor run_from
  broken_run_violated commands pool authorized advance_time rest =
      let (addresses, env) = generate sdk.generate_address pool sdk.default in
      let nonempty : IsNonempty addresses =
        generate-IsNonempty sdk.generate_address pool sdk.default in
      let (admin, named) = get_total addresses 0 nonempty in
      let (id, env') = host.register (Counter.constructor admin) env in
      let (authorizers, found, distinct, signers) = resolve_signers addresses authorized nonempty in
      let ready : setup host addresses env ≡ some (id, record { expected_count = pos 0 }, env') =
        rw (named, setup) refl in
      let caught =
        step_caught (suc commands) pool (record { contract_id = id; addresses = addresses }) admin
          authorized advance_time authorizers env' named found
          (host.storage-register (Counter.constructor admin) env) in
      rw (ready, run_all) (rw (caught, run_from) refl)

  -- The invariant signs its violations as the other invariants do.
  pub broken_value_matches_model-IsHonest :
      IsHonest (broken_adapter host) (broken_value_matches_model host)
  unfolding broken_check_value
  broken_value_matches_model-IsHonest ctx v h =
      elim (Option-cases
        (host.invoke (invocation host ctx.contract_id "get" []) Counter.get ctx.env)) [
          | inl traps ↦ absurd (ground (arith, traps, h))
          | inr (actual, got) ↦ elim (Bool-cases (beq_ℤ actual ctx.model.expected_count)) [
            | inl same ↦ absurd (ground (arith, got, same, h))
            | inr differs ↦ ground (arith, got, differs, h)
          ]
        ]
