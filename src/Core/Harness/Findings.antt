-- ===== src/Core/Harness/Findings.antt =====
-- The violations that `Harness::run` of crates/core/src/harness.rs returns.
use soro_fuzz.Base.{
  ℕ, zero, suc, ◌+◌, ◌≤◌, ◌<◌, min, ◌≡◌, refl, sym, ap, ◌∙◌, ◌⊎◌, inl, inr, none, some, List, [],
  ◌∷◌, ◌++◌, length, length-take, take, take-append, take-append_long, take_long, All, String, Eq,
  arith, Option, Option-cases,
}
use soro_fuzz.Core.Auth.{AddressPool, resolve, generate}
use soro_fuzz.Core.Command.{Outcome, undeclared_panic, ExecContext, Step, Run}
use soro_fuzz.Core.Adapter.{
  Sdk, ContractAdapter, InvariantCtx, Violation, passed, failed, panicked, Check, Invariant,
}
use soro_fuzz.Core.Harness.{
  completed, violated, Harness, check_all, stop, proceed, settle, conclude, run_step, run_from,
  run_all, run,
}
use soro_fuzz.Core.Harness.Clean.{observation, StepEnd-cases}

module _ {Address : Type 0} ⦃e : Eq Address⦄ {sdk : Sdk Address} (a : ContractAdapter sdk) where
  -- An invariant that signs its violations with its own name and the step that it was shown.
  abbrev pub IsHonest : Invariant a → Type 0
  IsHonest i =
      (ctx : InvariantCtx a) (v : Violation)
      → i.check ctx ≡ failed v
      → (v.invariant ≡ i.name) × (v.step_index ≡ ctx.step_index)

  -- The name is that of one of the invariants.
  abbrev pub IsNamed : List (Invariant a) → String → Type 0
  IsNamed [] name = ⊥
  IsNamed (i ∷ is) name = (name ≡ i.name) ⊎ IsNamed is name

  Check-cases : (c : Check) → (c ≡ passed) ⊎ (((v : Violation) × (c ≡ failed v)) ⊎ (c ≡ panicked))
  Check-cases passed = inl refl
  Check-cases (failed v) = inr (inl (v, refl))
  Check-cases panicked = inr (inr refl)

  check_all_violated :
      (is : List (Invariant a)) (ctx : InvariantCtx a) (v : Violation)
      → All IsHonest is
      → check_all a is ctx ≡ violated v
      → IsNamed is v.invariant × (v.step_index ≡ ctx.step_index)
  unfolding check_all
  check_all_violated [] ctx v hs p = cc
  check_all_violated (i ∷ is) ctx v (h, hs) p = elim (Check-cases (i.check ctx)) [
    | inl c ↦
        let (named, index) = check_all_violated is ctx v hs (rw (c, check_all) at p) in
        (inr named, index)
    | inr (inl (w, c)) ↦ let (name, index) = h ctx w c in ground (arith, name, index, c)
    | inr (inr c) ↦ ground (arith, c)
  ]

  module _ (h : Harness a) (ctx : ExecContext Address) where
    -- Where a violation that a step reports comes from.
    abbrev pub IsLocated : ℕ → Violation → Type 0
    IsLocated k v =
        (v.step_index ≡ k)
        × ((v.invariant ≡ "no-undeclared-panic") ⊎ IsNamed h.invariants v.invariant)

    settle_violated :
        (k : ℕ) (step : Step a.Command) (authorizers : List Address) (outcome : Outcome)
        (applied : Option a.Model) (env : sdk.Env) (v : Violation)
        → All IsHonest h.invariants
        → settle a h ctx k step.command authorizers outcome applied env ≡ stop (violated v)
        → IsLocated k v
    unfolding settle proceed
    settle_violated k step authorizers outcome none env v hs p = cc
    settle_violated k step authorizers outcome (some m) env v hs p = ground (
      arith,
      check_all_violated h.invariants (observation a h ctx k step authorizers outcome m env) v hs,
    )

    conclude_violated :
        (k : ℕ) (step : Step a.Command) (authorizers : List Address) (outcome : Outcome)
        (model : a.Model) (env : sdk.Env) (v : Violation)
        → All IsHonest h.invariants
        → conclude a h ctx k step.command authorizers outcome model env ≡ stop (violated v)
        → IsLocated k v
    unfolding conclude
    conclude_violated k step authorizers (undeclared_panic _) model env v hs p = ground arith
    conclude_violated k step authorizers o model env v hs p =
        settle_violated k step authorizers o _ env v hs p

    run_step_violated :
        (k : ℕ) (step : Step a.Command) (model : a.Model) (env : sdk.Env) (v : Violation)
        → All IsHonest h.invariants
        → run_step a h ctx k step model env ≡ stop (violated v)
        → IsLocated k v
    unfolding run_step
    run_step_violated k step model env v hs p =
        elim (Option-cases (resolve ctx.addresses step.authorized)) [
          | inl out ↦ ground (arith, out)
          | inr (authorizers, found) ↦
              conclude_violated k step authorizers _ model _ v hs (rw (found, run_step) at p)
        ]

    -- The violation stands at the `j`-th of the steps: those before it are completed, and with it
    -- the run is violated.
    abbrev IsFirstAt : ℕ → List (Step a.Command) → a.Model → sdk.Env → Violation → ℕ → Type 0
    IsFirstAt k steps model env v j =
        (v.step_index ≡ k + j)
        × (j < length steps)
        × (run_from a h ctx k (take j steps) model env ≡ completed)
        × (run_from a h ctx k (take (suc j) steps) model env ≡ violated v)

    run_from_violated :
        (k : ℕ) (steps : List (Step a.Command)) (model : a.Model) (env : sdk.Env) (v : Violation)
        → All IsHonest h.invariants
        → run_from a h ctx k steps model env ≡ violated v
        → (j : ℕ) × IsFirstAt k steps model env v j
          × ((v.invariant ≡ "no-undeclared-panic") ⊎ IsNamed h.invariants v.invariant)
    unfolding run_from
    run_from_violated k [] model env v hs p = cc
    run_from_violated k (step ∷ steps) model env v hs p =
        elim (StepEnd-cases a h ctx (run_step a h ctx k step model env)) [
          | inl (m, env', s) ↦
              let (j, (index, high, before, found), name) =
                run_from_violated (suc k) steps m env' v hs (rw (s, run_from) at p) in
              (
                suc j,
                (omega arith, omega arith, rw (s, run_from) before, rw (s, run_from) found),
                name,
              )
          | inr (end, s) ↦
              let is = rw (s, run_from) at p in
              let (index, name) = run_step_violated k step model env v hs (s ∙ ap stop is) in
              (0, (omega arith, omega arith, refl, rw (s, run_from) is), name)
        ]

    -- What a run has found is found whatever steps follow.
    run_from-append :
        (k : ℕ) (steps later : List (Step a.Command)) (model : a.Model) (env : sdk.Env)
        (v : Violation)
        → run_from a h ctx k steps model env ≡ violated v
        → run_from a h ctx k (steps ++ later) model env ≡ violated v
    unfolding run_from
    run_from-append k [] later model env v p = cc
    run_from-append k (step ∷ steps) later model env v p =
        elim (StepEnd-cases a h ctx (run_step a h ctx k step model env)) [
          | inl (m, env', s) ↦
              rw (s, run_from)
                (run_from-append (suc k) steps later m env' v (rw (s, run_from) at p))
          | inr (end, s) ↦ rw (s, run_from) (rw (s, run_from) at p)
        ]

  -- The host and the context that a run starts from.
  module _ (h : Harness a) where
    abbrev generated : AddressPool Address × sdk.Env
    generated = generate sdk.generate_address h.address_pool_size sdk.default

    run_all_violated :
        (steps : List (Step a.Command)) (v : Violation)
        → All IsHonest h.invariants
        → run_all a h steps ≡ violated v
        → (v.step_index < length steps)
          × (run_all a h (take v.step_index steps) ≡ completed)
          × (run_all a h (take (suc v.step_index) steps) ≡ violated v)
          × ((v.invariant ≡ "no-undeclared-panic") ⊎ IsNamed h.invariants v.invariant)
    unfolding run_all
    run_all_violated steps v hs p = elim (Option-cases (a.setup generated.0 generated.1)) [
      | inl out ↦ absurd (ground (arith, out))
      | inr ((id, model, env), ready) ↦
          let (j, (index, high, before, found), name) =
            run_from_violated h _ 0 steps model env v hs (rw (ready, run_all) at p) in
          let same : j ≡ v.step_index = omega arith in
          (
            omega arith,
            ap (λ i. run_all a h (take i steps)) (sym same) ∙ rw (ready, run_all) before,
            ap (λ i. run_all a h (take (suc i) steps)) (sym same) ∙ rw (ready, run_all) found,
            name,
          )
    ]

    run_all-append :
        (steps later : List (Step a.Command)) (v : Violation)
        → run_all a h steps ≡ violated v
        → run_all a h (steps ++ later) ≡ violated v
    unfolding run_all
    run_all-append steps later v p = elim (Option-cases (a.setup generated.0 generated.1)) [
      | inl out ↦ ground (arith, out)
      | inr ((id, model, env), ready) ↦
          rw (ready, run_all)
            (run_from-append h _ 0 steps later model env v (rw (ready, run_all) at p))
    ]

  take_within :
      (m n : ℕ) (steps : List (Step a.Command))
      → m ≤ n
      → take n (take m steps) ≡ take m (take n steps)
  take_within zero zero steps le = refl
  take_within zero (suc n) steps le = refl
  take_within (suc m) zero steps le = absurd (omega arith)
  take_within (suc m) (suc n) [] le = refl
  take_within (suc m) (suc n) (x ∷ steps) le = ap (λ l. x ∷ l) (take_within m n steps (omega arith))

  -- If the invariants sign their violations with their own names and the step that they were
  -- shown, then a violation that a run returns names the first step that is at fault: the run of
  -- the steps before that is completed, and the run up to that step returns the violation already.
  -- It names an invariant that is registered, or `no-undeclared-panic`.
  pub run_violated :
      (h : Harness a) (r : Run a.Command) (v : Violation)
      → All IsHonest h.invariants
      → run a h r ≡ violated v
      → (v.step_index < min h.commands_per_run (length r.steps))
        × (run a h (record { steps = take v.step_index r.steps }) ≡ completed)
        × (run a h (record { steps = take (suc v.step_index) r.steps }) ≡ violated v)
        × ((v.invariant ≡ "no-undeclared-panic") ⊎ IsNamed h.invariants v.invariant)
  unfolding run
  run_violated h r v hs p =
      let n = h.commands_per_run in
      let (index, before, found, name) = run_all_violated h (take n r.steps) v hs p in
      let low : v.step_index < min n (length r.steps) = omega (arith, length-take n r.steps) in
      (
        low,
        ap (run_all a h) (take_within v.step_index n r.steps (omega arith)) ∙ before,
        ap (run_all a h) (take_within (suc v.step_index) n r.steps (omega arith)) ∙ found,
        name,
      )

  -- Steps beyond `commands_per_run` change nothing; and a violation that a run has found within
  -- its steps is found by every run that goes on after them.
  pub run-append :
      (h : Harness a) (steps later : List (Step a.Command))
      → (h.commands_per_run ≤ length steps
          → run a h (record { steps = steps ++ later }) ≡ run a h (record { steps = steps }))
        × ((v : Violation)
            → length steps ≤ h.commands_per_run
            → run a h (record { steps = steps }) ≡ violated v
            → run a h (record { steps = steps ++ later }) ≡ violated v)
  unfolding run
  run-append h steps later = (
    λ enough. ap (run_all a h) (take-append h.commands_per_run steps later enough),
    λ v short p.
        let (zs, cut) = take-append_long h.commands_per_run steps later short in
        ap (run_all a h) cut
        ∙ run_all-append h steps zs v
            (sym (ap (run_all a h) (take_long h.commands_per_run steps short)) ∙ p),
  )
