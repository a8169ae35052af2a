-- ===== src/Core/Harness/Contained.antt =====
-- The panics that `Harness::run` of crates/core/src/harness.rs catches.
use soro_fuzz.Base.{
  ℕ, suc, ◌≡◌, ◌≢◌, refl, ◌⊎◌, inl, inr, Option, none, some, Option-cases, List, [], ◌∷◌, take, All,
  Eq,
}
use soro_fuzz.Core.Auth.{AddressPool, generate}
use soro_fuzz.Core.Auth.Resolve.{IsNonempty, generate-IsNonempty, resolve_signers}
use soro_fuzz.Core.Command.{Outcome, undeclared_panic, ExecContext, Step, Run}
use soro_fuzz.Core.Adapter.{
  Sdk, ContractAdapter, InvariantCtx, Violation, passed, failed, panicked, Check, Invariant,
}
use soro_fuzz.Core.Harness.{
  RunEnd, completed, violated, escaped, Harness, check_all, StepEnd, next, stop, proceed, settle,
  conclude, run_step, run_from, run_all, run,
}
use soro_fuzz.Core.Harness.Clean.{StepEnd-cases}

module _ {Address : Type 0} ⦃e : Eq Address⦄ {sdk : Sdk Address} (a : ContractAdapter sdk) where
  -- An invariant whose check does not panic.
  abbrev pub IsCalm : Invariant a → Type 0
  IsCalm i = (ctx : InvariantCtx a) → i.check ctx ≢ panicked

  abbrev IsContained : RunEnd → Type 0
  IsContained completed = Unit
  IsContained (violated v) = Unit
  IsContained escaped = ⊥

  abbrev StepIsContained : StepEnd a → Type 0
  StepIsContained (next model env) = Unit
  StepIsContained (stop end) = IsContained end

  check-IsContained :
      (is : List (Invariant a)) (ctx : InvariantCtx a) (c : Check)
      → c ≢ panicked
      → IsContained (check_all a is ctx)
      → IsContained
          (elim c [ passed ↦ check_all a is ctx | failed v ↦ violated v | panicked ↦ escaped ])
  check-IsContained is ctx passed h rest = rest
  check-IsContained is ctx (failed v) h rest = tt
  check-IsContained is ctx panicked h rest = absurd (h refl)

  check_all-IsContained :
      (is : List (Invariant a)) (ctx : InvariantCtx a)
      → All IsCalm is
      → IsContained (check_all a is ctx)
  unfolding check_all
  check_all-IsContained [] ctx h = tt
  check_all-IsContained (i ∷ is) ctx (h, hs) =
      check-IsContained is ctx (i.check ctx) (h ctx) (check_all-IsContained is ctx hs)

  proceed-IsContained :
      (end : RunEnd) (model : a.Model) (env : sdk.Env)
      → IsContained end
      → StepIsContained (proceed a end model env)
  unfolding proceed
  proceed-IsContained completed model env h = tt
  proceed-IsContained (violated v) model env h = tt
  proceed-IsContained escaped model env h = h

  -- The model takes in every outcome of every command.
  abbrev pub IsTotal : Type 0
  IsTotal =
      (command : a.Command) (model : a.Model) (addresses : AddressPool Address) (outcome : Outcome)
      → a.apply_to_model command model addresses outcome ≢ none

  module _ (h : Harness a) (ctx : ExecContext Address) (calm : All IsCalm h.invariants)
      (total : IsTotal) where
    settle-IsContained :
        (k : ℕ) (command : a.Command) (authorizers : List Address) (outcome : Outcome)
        (applied : Option a.Model) (env : sdk.Env)
        → applied ≢ none
        → StepIsContained (settle a h ctx k command authorizers outcome applied env)
    unfolding settle
    settle-IsContained k command authorizers outcome none env there = absurd (there refl)
    settle-IsContained k command authorizers outcome (some m) env there =
        proceed-IsContained _ m env (check_all-IsContained h.invariants _ calm)

    conclude-IsContained :
        (k : ℕ) (command : a.Command) (authorizers : List Address) (outcome : Outcome)
        (model : a.Model) (env : sdk.Env)
        → StepIsContained (conclude a h ctx k command authorizers outcome model env)
    unfolding conclude
    conclude-IsContained k command authorizers (undeclared_panic _) model env = tt
    conclude-IsContained k command authorizers o model env =
        settle-IsContained k command authorizers o _ env (total command model ctx.addresses o)

    run_step-IsContained :
        (k : ℕ) (step : Step a.Command) (model : a.Model) (env : sdk.Env)
        → IsNonempty ctx.addresses
        → StepIsContained (run_step a h ctx k step model env)
    unfolding run_step
    run_step-IsContained k step model env nonempty =
        let (authorizers, found, _, _) = resolve_signers ctx.addresses step.authorized nonempty in
        rw (found, run_step) (conclude-IsContained k step.command authorizers _ model _)

    run_from-IsContained :
        (k : ℕ) (steps : List (Step a.Command)) (model : a.Model) (env : sdk.Env)
        → IsNonempty ctx.addresses
        → IsContained (run_from a h ctx k steps model env)
    unfolding run_from
    run_from-IsContained k [] model env nonempty = tt
    run_from-IsContained k (step ∷ steps) model env nonempty =
        let held = run_step-IsContained k step model env nonempty in
        elim (StepEnd-cases a h ctx (run_step a h ctx k step model env)) [
          | inl (m, env', s) ↦ rw (s, run_from) (run_from-IsContained (suc k) steps m env' nonempty)
          | inr (end, s) ↦ rw (s, run_from) (rw s at held)
        ]

  ended :
      (end : RunEnd) → IsContained end → (end ≡ completed) ⊎ ((v : Violation) × (end ≡ violated v))
  ended completed h = inl refl
  ended (violated v) h = inr (v, refl)
  ended escaped h = absurd h

  run_all-IsContained :
      (h : Harness a) (steps : List (Step a.Command))
      → ((addresses : AddressPool Address) (env : sdk.Env) → a.setup addresses env ≢ none)
      → IsTotal
      → All IsCalm h.invariants
      → IsContained (run_all a h steps)
  unfolding run_all
  run_all-IsContained h steps ready total calm =
      let (addresses, env) = generate sdk.generate_address h.address_pool_size sdk.default in
      let nonempty = generate-IsNonempty sdk.generate_address h.address_pool_size sdk.default in
      elim (Option-cases (a.setup addresses env)) [
        | inl panics ↦ absurd (ready addresses env panics)
        | inr ((id, model, env'), found) ↦
            rw (found, run_all) (run_from-IsContained h _ calm total 0 steps model env' nonempty)
      ]

  -- Whatever its commands do, panics included, a run does not panic but is completed or returns a
  -- violation, if the adapter's setup does not panic, its model takes in every outcome without a
  -- panic, and the checks of the invariants do not panic.
  pub run_contained :
      (h : Harness a) (r : Run a.Command)
      → ((addresses : AddressPool Address) (env : sdk.Env) → a.setup addresses env ≢ none)
      → IsTotal
      → All IsCalm h.invariants
      → (run a h r ≡ completed) ⊎ ((v : Violation) × (run a h r ≡ violated v))
  unfolding run
  run_contained h r ready total calm =
      ended (run a h r) (run_all-IsContained h (take h.commands_per_run r.steps) ready total calm)
