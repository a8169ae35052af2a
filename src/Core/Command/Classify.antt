-- ===== src/Core/Command/Classify.antt =====
-- `Outcome::from_try_result` of crates/core/src/command.rs: which results of a call are findings.
use soro_fuzz.Base.{ℕ, ◌≡◌, refl, ◌↔◌, ◌⊎◌, inl, inr, Bool, true, false, String}
use soro_fuzz.Core.Command.{
  ok, err, rejected, undeclared_panic, Executed, returned, unwound, TryResult, from_try_result,
}

-- An execution that the harness reports.
abbrev pub IsFinding : Executed → Type 0
IsFinding (returned (undeclared_panic _)) = Unit
IsFinding (returned _) = ⊥
IsFinding (unwound _) = Unit

abbrev pub IsRejected : Executed → Type 0
IsRejected (returned (rejected _)) = Unit
IsRejected _ = ⊥

module _ {T ConvErr E InvokeError : Type 0} where
  -- The host aborted the call.
  abbrev pub IsAbort : TryResult T ConvErr E InvokeError → Type 0
  IsAbort (ok _) = ⊥
  IsAbort (err (ok _)) = ⊥
  IsAbort (err (err _)) = Unit

  abbrev pub IsConversionError : TryResult T ConvErr E InvokeError → Type 0
  IsConversionError (ok (ok _)) = ⊥
  IsConversionError (ok (err _)) = Unit
  IsConversionError (err _) = ⊥

  -- A call is a finding exactly if the host aborted it although its auth was satisfied, or its
  -- value did not convert; and it is a benign rejection exactly if the host aborted it and its auth
  -- was withheld.
  pub from_try_result_classifies :
      (debug_conv : ConvErr → String) (debug_invoke : InvokeError → String)
      (r : TryResult T ConvErr E InvokeError) (auth : Bool) (code_of : E → ℕ)
      → (IsFinding (from_try_result debug_conv debug_invoke r auth code_of)
          ↔ ((IsAbort r × (auth ≡ true)) ⊎ IsConversionError r))
        × (IsRejected (from_try_result debug_conv debug_invoke r auth code_of)
            ↔ (IsAbort r × (auth ≡ false)))
  unfolding from_try_result
  from_try_result_classifies dc di (ok (ok v)) auth code_of =
      ((λ h. absurd h, λ h. elim h [ inl p ↦ absurd p.0 | inr q ↦ q ]), (λ h. absurd h, λ p. p.0))
  from_try_result_classifies dc di (ok (err c)) auth code_of =
      ((λ h. inr tt, λ h. tt), (λ h. absurd h, λ p. p.0))
  from_try_result_classifies dc di (err (ok x)) auth code_of =
      ((λ h. absurd h, λ h. elim h [ inl p ↦ absurd p.0 | inr q ↦ q ]), (λ h. absurd h, λ p. p.0))
  from_try_result_classifies dc di (err (err x)) true code_of =
      ((λ h. inl (tt, refl), λ h. tt), (λ h. absurd h, λ p. cc (p.1)))
  from_try_result_classifies dc di (err (err x)) false code_of =
      ((λ h. absurd h, λ h. elim h [ inl p ↦ cc (p.1) | inr q ↦ q ]), (λ h. (tt, refl), λ p. tt))
