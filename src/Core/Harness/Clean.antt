-- ===== src/Core/Harness/Clean.antt =====
-- The runs of `Harness::run` (crates/core/src/harness.rs) that end in `Ok`, as traces of clean steps.
use soro_fuzz.Base.{
  ℕ, suc, ◌≡◌, refl, ap, ◌↔◌, Option, none, some, inl, inr, ◌⊎◌, ◌≢◌, ◌∙◌, List, [], ◌∷◌, Eq, arith,
  Option-cases, All,
}
use soro_fuzz.Core.Auth.{resolve}
use soro_fuzz.Core.Command.{
  Outcome, declared_error, rejected, undeclared_panic, Executed, ExecContext, Step,
}
use soro_fuzz.Core.Adapter.{Sdk, ContractAdapter, InvariantCtx, passed, Invariant}
use soro_fuzz.Core.Harness.{
  outcome_of, RunEnd, completed, violated, escaped, Harness, advance, check_all, StepEnd, next,
  stop, proceed, settle, conclude, run_step, run_from,
}

-- An outcome that is no finding.
abbrev pub IsBenign : Outcome → Type 0
IsBenign Outcome.ok = Unit
IsBenign (declared_error _) = Unit
IsBenign (rejected _) = Unit
IsBenign (undeclared_panic _) = ⊥

module _ {Address : Type 0} ⦃e : Eq Address⦄ {sdk : Sdk Address} (a : ContractAdapter sdk) where
  abbrev pub AllPass : List (Invariant a) → InvariantCtx a → Type 0
  AllPass [] ctx = Unit
  AllPass (i ∷ is) ctx = (i.check ctx ≡ passed) × AllPass is ctx

  pub check_all-AllPass :
      (is : List (Invariant a)) (ctx : InvariantCtx a)
      → check_all a is ctx ≡ completed
      → AllPass is ctx
  unfolding check_all
  check_all-AllPass [] ctx h = tt
  check_all-AllPass (i ∷ is) ctx h = ground (arith, check_all-AllPass is ctx)

  pub check_all_complete :
      (is : List (Invariant a)) (ctx : InvariantCtx a)
      → AllPass is ctx
      → check_all a is ctx ≡ completed
  unfolding check_all
  check_all_complete [] ctx h = refl
  check_all_complete (i ∷ is) ctx h = ground (arith, check_all_complete is ctx)

  module _ (h : Harness a) (ctx : ExecContext Address) where
    -- What the invariants are shown after a step.
    abbrev pub observation :
        ℕ → Step a.Command → List Address → Outcome → a.Model → sdk.Env → InvariantCtx a
    observation k step authorizers outcome model env = record {
      env = env;
      contract_id = ctx.contract_id;
      model = model;
      command = step.command;
      last_outcome = outcome;
      authorizers = authorizers;
      addresses = ctx.addresses;
      step_index = k;
    }

    -- The execution of a step's command, on the host with its time advanced.
    abbrev pub executed : Step a.Command → List Address → sdk.Env → Executed × sdk.Env
    executed step authorizers env =
        a.execute step.command ctx authorizers (advance a step.advance_time env)

    -- A step that leads from one model and host to the next without a finding.
    pub record CleanStep (k : ℕ) (step : Step a.Command) (model : a.Model) (env : sdk.Env)
        (model' : a.Model) (env' : sdk.Env) : Type 0 where
      pub authorizers : List Address
      pub resolved : resolve ctx.addresses step.authorized ≡ some authorizers
      pub outcome : Outcome
      pub came_to : outcome_of (executed step authorizers env).0 ≡ outcome
      pub benign : IsBenign outcome
      pub left : (executed step authorizers env).1 ≡ env'
      pub applied : a.apply_to_model step.command model ctx.addresses outcome ≡ some model'
      pub checked : AllPass h.invariants (observation k step authorizers outcome model' env')

    pub data Trace : ℕ → List (Step a.Command) → a.Model → sdk.Env → Type 0 where
      done : {k : ℕ} {model : a.Model} {env : sdk.Env} → Trace k [] model env
      then :
          {k : ℕ} {step : Step a.Command} {steps : List (Step a.Command)} {model model' : a.Model}
          {env env' : sdk.Env}
          → CleanStep k step model env model' env'
          → Trace (suc k) steps model' env'
          → Trace k (step ∷ steps) model env

    conclude_benign :
        (k : ℕ) (step : Step a.Command) (authorizers : List Address) (outcome : Outcome)
        (model : a.Model) {model' : a.Model} (env : sdk.Env)
        → IsBenign outcome
        → a.apply_to_model step.command model ctx.addresses outcome ≡ some model'
        → AllPass h.invariants (observation k step authorizers outcome model' env)
        → conclude a h ctx k step.command authorizers outcome model env ≡ next model' env
    unfolding conclude settle proceed
    conclude_benign k step authorizers (undeclared_panic _) model env b p c = absurd b
    conclude_benign k step authorizers _ model env b p c =
        ground (arith, p, check_all_complete h.invariants _ c)

    -- A clean step leads to the next one.
    pub run_step-next :
        {k : ℕ} {step : Step a.Command} {model model' : a.Model} {env env' : sdk.Env}
        → CleanStep k step model env model' env'
        → run_step a h ctx k step model env ≡ next model' env'
    unfolding run_step
    run_step-next {k} {step} {model} c =
        rw (c.resolved, run_step)
          (rw (c.came_to, c.left)
            (conclude_benign k step c.authorizers c.outcome model _ c.benign c.applied c.checked))

    pub run_from-Trace :
        (k : ℕ) (steps : List (Step a.Command)) (model : a.Model) (env : sdk.Env)
        → Trace k steps model env
        → run_from a h ctx k steps model env ≡ completed
    unfolding run_from
    run_from-Trace k [] model env done = refl
    run_from-Trace k (step ∷ steps) model env (then c t) =
        rw (run_step-next c, run_from) (run_from-Trace (suc k) steps _ _ t)

    proceed_next :
        (end : RunEnd) {model model' : a.Model} {env env' : sdk.Env}
        → proceed a end model env ≡ next model' env'
        → (end ≡ completed) × (model ≡ model') × (env ≡ env')
    unfolding proceed
    proceed_next completed p = ground arith
    proceed_next (violated v) p = cc
    proceed_next escaped p = cc

    settle_next :
        (k : ℕ) (step : Step a.Command) (authorizers : List Address) (outcome : Outcome)
        (applied : Option a.Model) {model' : a.Model} {env env' : sdk.Env}
        → settle a h ctx k step.command authorizers outcome applied env ≡ next model' env'
        → (applied ≡ some model')
          × AllPass h.invariants (observation k step authorizers outcome model' env')
          × (env ≡ env')
    unfolding settle
    settle_next k step authorizers outcome none p = cc
    settle_next k step authorizers outcome (some m) p =
        let (c, me, ee) = proceed_next _ p in
        (ap some me, rw (← me, ← ee) (check_all-AllPass h.invariants _ c), ee)

    conclude_next :
        (k : ℕ) (step : Step a.Command) (authorizers : List Address) (outcome : Outcome)
        (model : a.Model) {model' : a.Model} {env env' : sdk.Env}
        → conclude a h ctx k step.command authorizers outcome model env ≡ next model' env'
        → IsBenign outcome
          × (a.apply_to_model step.command model ctx.addresses outcome ≡ some model')
          × AllPass h.invariants (observation k step authorizers outcome model' env')
          × (env ≡ env')
    unfolding conclude
    conclude_next k step authorizers (undeclared_panic _) model p = cc
    conclude_next k step authorizers o model p =
        let (applied, all, left) = settle_next k step authorizers o _ p in (tt, applied, all, left)

    -- A step that leads to a next one is clean.
    pub run_step-CleanStep :
        (k : ℕ) (step : Step a.Command) (model : a.Model) {model' : a.Model} (env : sdk.Env)
        {env' : sdk.Env}
        → run_step a h ctx k step model env ≡ next model' env'
        → CleanStep k step model env model' env'
    unfolding run_step
    run_step-CleanStep k step model env p =
        elim (Option-cases (resolve ctx.addresses step.authorized)) [
          | inl out ↦ ground (arith, out)
          | inr (authorizers, found) ↦
              let (benign, applied, checked, left) =
                conclude_next k step authorizers _ model (rw (found, run_step) at p) in
              record {
                authorizers = authorizers;
                resolved = found;
                outcome = outcome_of (executed step authorizers env).0;
                came_to = refl;
                benign = benign;
                left = left;
                applied = applied;
                checked = checked;
              }
        ]

    pub StepEnd-cases :
        (s : StepEnd a)
        → ((m : a.Model) × (env : sdk.Env) × (s ≡ next m env)) ⊎ ((end : RunEnd) × (s ≡ stop end))
    StepEnd-cases (next m env) = inl (m, env, refl)
    StepEnd-cases (stop end) = inr (end, refl)

    settle_stop :
        (k : ℕ) (step : Step a.Command) (authorizers : List Address) (outcome : Outcome)
        (applied : Option a.Model) (env : sdk.Env)
        → settle a h ctx k step.command authorizers outcome applied env ≢ stop completed
    unfolding settle proceed
    settle_stop k step authorizers outcome none env p = cc
    settle_stop k step authorizers outcome (some m) env p = ground arith

    conclude_stop :
        (k : ℕ) (step : Step a.Command) (authorizers : List Address) (outcome : Outcome)
        (model : a.Model) (env : sdk.Env)
        → conclude a h ctx k step.command authorizers outcome model env ≢ stop completed
    unfolding conclude
    conclude_stop k step authorizers (undeclared_panic _) model env p = cc
    conclude_stop k step authorizers o model env p = settle_stop k step authorizers o _ env p

    -- A step that ends the run does not end it in `Ok`.
    run_step_stop :
        (k : ℕ) (step : Step a.Command) (model : a.Model) (env : sdk.Env)
        → run_step a h ctx k step model env ≢ stop completed
    unfolding run_step
    run_step_stop k step model env p = elim (Option-cases (resolve ctx.addresses step.authorized)) [
      | inl out ↦ ground (arith, out)
      | inr (authorizers, found) ↦
          conclude_stop k step authorizers _ model _ (rw (found, run_step) at p)
    ]

    run_from_completed :
        (k : ℕ) (steps : List (Step a.Command)) (model : a.Model) (env : sdk.Env)
        → run_from a h ctx k steps model env ≡ completed
        → Trace k steps model env
    unfolding run_from
    run_from_completed k [] model env p = done
    run_from_completed k (step ∷ steps) model env p =
        elim (StepEnd-cases (run_step a h ctx k step model env)) [
          | inl (m, env', s) ↦
              then (run_step-CleanStep k step model env s)
                (run_from_completed (suc k) steps m env' (rw (s, run_from) at p))
          | inr (end, s) ↦
              absurd (run_step_stop k step model env (s ∙ ap stop (rw (s, run_from) at p)))
        ]

    -- The loop ends in `Ok` exactly if it makes a trace: for each step in turn the auth selection
    -- resolves, the command comes to an outcome that is no undeclared panic, the model takes the
    -- outcome in, and every invariant passes on what that leaves.
    pub run_from_completed_iff_Trace :
        (k : ℕ) (steps : List (Step a.Command)) (model : a.Model) (env : sdk.Env)
        → (run_from a h ctx k steps model env ≡ completed) ↔ Trace k steps model env
    run_from_completed_iff_Trace k steps model env =
        (run_from_completed k steps model env, run_from-Trace k steps model env)

    -- The rule by which a contract's runs are shown to be clean: what holds at the start, and
    -- what each admitted step keeps while it is clean.
    pub run_from_rule :
        (P : a.Model → sdk.Env → Type 0) (Q : Step a.Command → Type 0)
        → ((k : ℕ) (step : Step a.Command) (model : a.Model) (env : sdk.Env)
            → Q step
            → P model env
            → (model' : a.Model) × (env' : sdk.Env) × CleanStep k step model env model' env'
              × P model' env')
        → (k : ℕ) (steps : List (Step a.Command)) (model : a.Model) (env : sdk.Env) → All Q steps
        → P model env
        → Trace k steps model env
    run_from_rule P Q keep k [] model env q p = done
    run_from_rule P Q keep k (step ∷ steps) model env (q, qs) p =
        let (m, env', c, p') = keep k step model env q p in
        then c (run_from_rule P Q keep (suc k) steps m env' qs p')
