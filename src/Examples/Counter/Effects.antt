-- ===== src/Examples/Counter/Effects.antt =====
-- What each command of examples/counter/src/harness.rs does to a host that holds a counter.
use soro_fuzz.Base.{
  ℕ, ◌≡◌, refl, ◌∙◌, Bool, true, false, some, inl, inr, List, [], ◌∷◌, Eq, contains, arith,
  Bool-cases, String, ◌⊎◌,
}
use soro_fuzz.Int.{ℤ, pos, i64_min, i64_max, in_range, ◌+ℤ◌, ◌-ℤ◌, as_i64}
use soro_fuzz.Core.Command.{Outcome, declared_error, rejected, is_ok, returned}
use soro_fuzz.Core.Adapter.{Sdk}
use soro_fuzz.Core.Harness.Clean.{IsBenign}
use soro_fuzz.Examples.Host.{Host, Call, Val, int, returns, traps, mock_single_auth}
use soro_fuzz.Examples.Host.Calls.{
  try_call-returns, try_call-fails, try_call-traps, mock_single_auth_lem,
}
use soro_fuzz.Examples.Counter
use soro_fuzz.Examples.Counter.{Storage, overflow, underflow}
use soro_fuzz.Examples.Counter.Harness.{
  CounterModel, CounterCommand, SetValue, increment, decrement, reset, set, apply_ok,
  apply_to_model, execute_with, invocation, gated,
}

-- The contract's storage, when its admin and its count are these.
abbrev pub holding : {Address : Type 0} → Address → ℤ → Storage Address
holding admin count = record { count = some count; admin = some admin }

module _ {Address : Type 0} ⦃e : Eq Address⦄ {sdk : Sdk Address}
    (host : Host sdk (Storage Address)) where
  -- What a command does to a host that holds a count: an outcome that is no finding, and the count
  -- of the updated model.
  pub record Effect (command : CounterCommand) (id admin : Address) (authorizers : List Address)
      (count : ℤ) (env : sdk.Env) : Type 0 where
    pub outcome : Outcome
    pub benign : IsBenign outcome
    pub came_to : (execute_with host command id admin authorizers env).0 ≡ returned outcome
    pub model' : CounterModel
    pub applied :
        apply_to_model {Address = Address} command
          (record { expected_count = count })
          (record { addresses = [] })
          outcome
        ≡ some model'
    pub held :
        host.storage id (execute_with host command id admin authorizers env).1
        ≡ holding admin model'.expected_count

  module _ (id admin : Address) (authorizers : List Address) (count : ℤ) (env : sdk.Env)
      (h : host.storage id env ≡ holding admin count) where
    increment-Effect : Effect increment id admin authorizers count env
    unfolding execute_with Counter.increment apply_to_model apply_ok is_ok
    increment-Effect = elim (Bool-cases (in_range i64_min i64_max (count +ℤ pos 1))) [
      | inl fits ↦
          let (r, kept) =
            try_call-returns host (invocation host id "increment" []) Counter.increment true
              Counter.code_of env (count +ℤ pos 1) (holding admin (count +ℤ pos 1))
              (rw h (rw fits)) in
          record {
            outcome = Outcome.ok;
            benign = tt;
            came_to = r;
            model' = record { expected_count = count +ℤ pos 1 };
            applied = ground arith;
            held = kept;
          }
      | inr out ↦
          let (r, kept) =
            try_call-fails host (invocation host id "increment" []) Counter.increment true
              Counter.code_of env overflow (holding admin count) (rw h (rw out)) in
          record {
            outcome = declared_error (Counter.code_of overflow);
            benign = tt;
            came_to = r;
            model' = record { expected_count = count };
            applied = refl;
            held = kept ∙ h;
          }
    ]

    decrement-Effect : Effect decrement id admin authorizers count env
    unfolding execute_with Counter.decrement apply_to_model apply_ok is_ok
    decrement-Effect = elim (Bool-cases (in_range i64_min i64_max (count -ℤ pos 1))) [
      | inl fits ↦
          let (r, kept) =
            try_call-returns host (invocation host id "decrement" []) Counter.decrement true
              Counter.code_of env (count -ℤ pos 1) (holding admin (count -ℤ pos 1))
              (rw h (rw fits)) in
          record {
            outcome = Outcome.ok;
            benign = tt;
            came_to = r;
            model' = record { expected_count = count -ℤ pos 1 };
            applied = ground arith;
            held = kept;
          }
      | inr out ↦
          let (r, kept) =
            try_call-fails host (invocation host id "decrement" []) Counter.decrement true
              Counter.code_of env underflow (holding admin count) (rw h (rw out)) in
          record {
            outcome = declared_error (Counter.code_of underflow);
            benign = tt;
            came_to = r;
            model' = record { expected_count = count };
            applied = refl;
            held = kept ∙ h;
          }
    ]

    gated_effect :
        (fn_name : String) (args : List (Val Address))
        (f : Call Address (Storage Address) ℤ Counter.Error) (v : ℤ)
        → ((signed : Address → Bool) (now : ℕ)
            → signed admin ≡ true
            → f signed now (holding admin count) ≡ (returns v, holding admin v))
        → ((signed : Address → Bool) (now : ℕ)
            → signed admin ≡ false
            → f signed now (holding admin count) ≡ (traps, holding admin count))
        → let (x, env') = gated host admin (invocation host id fn_name args) f authorizers env in
          ((x ≡ returned Outcome.ok) × (host.storage id env' ≡ holding admin v))
          ⊎ ((m : String) × (x ≡ returned (rejected m))
              × (host.storage id env' ≡ holding admin count))
    unfolding gated
    gated_effect fn_name args f v lets_in keeps_out =
        let i = invocation host id fn_name args in
        let (auth, env') = mock_single_auth host admin i authorizers env in
        let (satisfied, signs, kept) = mock_single_auth_lem host admin i authorizers env in
        let held = kept ∙ h in
        elim (Bool-cases (contains authorizers admin)) [
          | inl yes_ ↦ inl (
              try_call-returns host i f auth Counter.code_of env' v (holding admin v)
                (rw held (lets_in _ _ (signs ∙ yes_))))
          | inr no_ ↦
              let (m, r, same) =
                try_call-traps host i f auth Counter.code_of env' (holding admin count)
                  (rw held (keeps_out _ _ (signs ∙ no_))) (satisfied ∙ no_) in
              inr (m, r, same ∙ held)
        ]

    reset-Effect : Effect reset id admin authorizers count env
    unfolding execute_with Counter.reset apply_to_model apply_ok is_ok
    reset-Effect =
        elim (gated_effect "reset" [] Counter.reset (pos 0) (λ signed now p. ground arith)
          (λ signed now p. ground arith)) [
            | inl (r, kept) ↦ record {
              outcome = Outcome.ok;
              benign = tt;
              came_to = r;
              model' = record { expected_count = pos 0 };
              applied = refl;
              held = kept;
            }
            | inr (m, r, kept) ↦ record {
              outcome = rejected m;
              benign = tt;
              came_to = r;
              model' = record { expected_count = count };
              applied = refl;
              held = kept;
            }
          ]

    set-Effect : (value : SetValue) → Effect (set value) id admin authorizers count env
    unfolding execute_with Counter.set apply_to_model apply_ok is_ok
    set-Effect value =
        let v = as_i64 value.value in
        elim (gated_effect "set" (int v ∷ []) (Counter.set v) v (λ signed now p. ground arith)
          (λ signed now p. ground arith)) [
            | inl (r, kept) ↦ record {
              outcome = Outcome.ok;
              benign = tt;
              came_to = r;
              model' = record { expected_count = v };
              applied = refl;
              held = kept;
            }
            | inr (m, r, kept) ↦ record {
              outcome = rejected m;
              benign = tt;
              came_to = r;
              model' = record { expected_count = count };
              applied = refl;
              held = kept;
            }
          ]

    pub effect : (command : CounterCommand) → Effect command id admin authorizers count env
    effect increment = increment-Effect
    effect decrement = decrement-Effect
    effect reset = reset-Effect
    effect (set value) = set-Effect value
