-- ===== src/Core/Harness/Rule.antt =====
-- A rule on the runs of one contract through `Harness::run` (crates/core/src/harness.rs): what its
-- `setup` establishes and each of its commands keeps.
use soro_fuzz.Base.{ℕ, ◌≡◌, ap, none, some, List, take, All, All-take, Option, Eq}
use soro_fuzz.Core.Auth.{AddressPool, generate, resolve}
use soro_fuzz.Core.Auth.Resolve.{IsNonempty, generate-IsNonempty, resolve_signers}
use soro_fuzz.Core.Command.{Outcome, returned, ExecContext, Step, Run}
use soro_fuzz.Core.Adapter.{Sdk, ContractAdapter}
use soro_fuzz.Core.Harness.{completed, Harness, outcome_of, advance, run_all, run}
use soro_fuzz.Core.Harness.Clean.{
  IsBenign, AllPass, CleanStep, observation, run_from-Trace, run_from_rule,
}

module _ {Address : Type 0} ⦃e : Eq Address⦄ {sdk : Sdk Address} (a : ContractAdapter sdk)
    (h : Harness a) where
  -- What one command does from a model and a host: it returns an outcome that is no finding, the
  -- model takes it in, and the invariants pass.
  pub record Keeps (P : ExecContext Address → a.Model → sdk.Env → Type 0)
      (ctx : ExecContext Address) (k : ℕ) (step : Step a.Command) (authorizers : List Address)
      (model : a.Model) (env : sdk.Env) : Type 0 where
    pub outcome : Outcome
    pub model' : a.Model
    pub env' : sdk.Env
    pub came_to : a.execute step.command ctx authorizers env ≡ (returned outcome, env')
    pub benign : IsBenign outcome
    pub applied : a.apply_to_model step.command model ctx.addresses outcome ≡ some model'
    pub held : P ctx model' env'
    pub checked :
        AllPass a h.invariants (observation a h ctx k step authorizers outcome model' env')

  clean_of_Keeps :
      (P : ExecContext Address → a.Model → sdk.Env → Type 0) (ctx : ExecContext Address) (k : ℕ)
      (step : Step a.Command) (authorizers : List Address) (model : a.Model) (env : sdk.Env)
      → resolve ctx.addresses step.authorized ≡ some authorizers
      → Keeps P ctx k step authorizers model (advance a step.advance_time env)
      → (model' : a.Model) × (env' : sdk.Env) × CleanStep a h ctx k step model env model' env'
        × P ctx model' env'
  unfolding outcome_of
  clean_of_Keeps P ctx k step authorizers model env found kept = (
    kept.model',
    kept.env',
    record {
      authorizers = authorizers;
      resolved = found;
      outcome = kept.outcome;
      came_to = ap (λ x. outcome_of x.0) kept.came_to;
      benign = kept.benign;
      left = ap (λ x. x.1) kept.came_to;
      applied = kept.applied;
      checked = kept.checked;
    },
    kept.held,
  )

  pub advance_holds :
      (P : sdk.Env → Type 0)
      → ((t : ℕ) (env : sdk.Env) → P env → P (sdk.set_timestamp t env))
      → (secs : Option ℕ) (env : sdk.Env) → P env
      → P (advance a secs env)
  unfolding advance
  advance_holds P tick none env p = p
  advance_holds P tick (some secs) env p = tick _ env p

  pub run_completed_rule :
      (P : ExecContext Address → a.Model → sdk.Env → Type 0)
      (Q : AddressPool Address → a.Command → Type 0)
      → ((ctx : ExecContext Address) (t : ℕ) (model : a.Model) (env : sdk.Env)
          → P ctx model env
          → P ctx model (sdk.set_timestamp t env))
      → ((pool : AddressPool Address) (env : sdk.Env)
          → IsNonempty pool
          → (id : Address) × (model : a.Model) × (env' : sdk.Env) × (a.setup pool env
              ≡ some (id, model, env'))
            × P (record { contract_id = id; addresses = pool }) model env')
      → ((ctx : ExecContext Address) (k : ℕ) (step : Step a.Command) (authorizers : List Address)
            (model : a.Model) (env : sdk.Env)
          → IsNonempty ctx.addresses
          → Q ctx.addresses step.command
          → P ctx model env
          → Keeps P ctx k step authorizers model env)
      → (r : Run a.Command)
      → All
          (λ step. Q (generate sdk.generate_address h.address_pool_size sdk.default).0 step.command)
          r.steps
      → run a h r ≡ completed
  unfolding run run_all
  run_completed_rule P Q tick start keep r qs =
      let (pool, env) = generate sdk.generate_address h.address_pool_size sdk.default in
      let nonempty : IsNonempty pool =
        generate-IsNonempty sdk.generate_address h.address_pool_size sdk.default in
      let (id, model, env', ready, held) = start pool env nonempty in
      let ctx : ExecContext Address = record { contract_id = id; addresses = pool } in
      rw (ready, run_all)
        (run_from-Trace a h ctx 0 (take h.commands_per_run r.steps) model env' (
          run_from_rule a h ctx (P ctx) (λ step. Q pool step.command)
            (λ k step m env q p.
              let (authorizers, found, _, _) = resolve_signers pool step.authorized nonempty in
              clean_of_Keeps P ctx k step authorizers m env found (
                keep ctx k step authorizers m _ nonempty q
                  (advance_holds (P ctx m) (λ t. tick ctx t m) step.advance_time env p)))
            0 (take h.commands_per_run r.steps) model env'
            (All-take _ h.commands_per_run r.steps qs) held))
