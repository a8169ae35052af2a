-- ===== src/Core/Command.antt =====
-- crates/core/src/command.rs: what a command's execution came to, and the steps of a run.
pub mod Classify
use soro_fuzz.Base.{ℕ, Bool, true, false, Option, List, [], ◌∷◌, String, concat, if◌then◌else◌}
use soro_fuzz.Core.Auth.{AuthSelection, AddressPool}

-- `core::result::Result`
pub data Result {ℓ κ} (A : Type ℓ) (E : Type κ) : Type (ℓ ⊔ κ) where
  ok : A → Result A E
  err : E → Result A E

pub data Outcome : Type 0 where
  ok : Outcome
  declared_error : ℕ → Outcome
  rejected : String → Outcome
  undeclared_panic : String → Outcome

-- A call of `Command::execute`: it returns, or it unwinds with a panic's payload. The three
-- payloads are those that `panic_message` tells apart.
pub data Payload : Type 0 where
  str : String → Payload
  string : String → Payload
  other : Payload

pub data Executed : Type 0 where
  returned : Outcome → Executed
  unwound : Payload → Executed

unfoldable pub is_ok : Outcome → Bool
is_ok Outcome.ok = true
is_ok _ = false

-- What a generated `try_*` client method returns. `T`, the conversion error, the contract's error
-- and `InvokeError` are the caller's and the SDK's; only their `Debug` text is used.
abbrev pub TryResult : (T ConvErr E InvokeError : Type 0) → Type 0
TryResult T ConvErr E InvokeError = Result (Result T ConvErr) (Result E InvokeError)

module _ {T ConvErr E InvokeError : Type 0} where
  unfoldable pub from_try_result :
      (ConvErr → String)
      → (InvokeError → String)
      → TryResult T ConvErr E InvokeError
      → Bool
      → (E → ℕ)
      → Executed
  from_try_result debug_conv debug_invoke (ok (ok _)) required_auth_satisfied code_of =
      returned Outcome.ok
  from_try_result debug_conv debug_invoke (ok (err conv_err)) required_auth_satisfied code_of =
      unwound (string (concat ("unexpected value conversion error: " ∷ debug_conv conv_err ∷ [])))
  from_try_result debug_conv debug_invoke (err (ok e)) required_auth_satisfied code_of =
      returned (declared_error (code_of e))
  from_try_result debug_conv debug_invoke (err (err invoke_err)) required_auth_satisfied code_of =
      if required_auth_satisfied
      then returned (
          undeclared_panic (
            concat (
              "host aborted the call ("
              ∷ debug_invoke invoke_err
              ∷ ") despite every required address being authorized — soroban-sdk represents both a failed require_auth and an undeclared contract panic as InvokeError::Abort, and auth was satisfied here, so this can only be the latter"
              ∷ [])))
      else returned (rejected (debug_invoke invoke_err))

pub record ExecContext (Address : Type 0) : Type 0 where
  pub contract_id : Address
  pub addresses : AddressPool Address

pub record Step (C : Type 0) : Type 0 where
  pub command : C
  pub authorized : AuthSelection
  pub advance_time : Option ℕ  -- u32

pub record Run (C : Type 0) : Type 0 where
  pub steps : List (Step C)
