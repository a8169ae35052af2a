-- ===== src/Examples/Host.antt =====
-- What the contracts of examples/ and their harnesses use of the SDK. A contract function is a
-- program over the contract's own storage, the ledger's clock and the addresses whose
-- `require_auth` passes; the host, a parameter, runs it.
pub mod Calls
use soro_fuzz.Base.{
  ℕ, ◌≡◌, Bool, true, false, Option, none, some, List, [], ◌∷◌, String, Eq, contains, if◌then◌else◌,
}
use soro_fuzz.Int.{ℤ}
use soro_fuzz.Core.Auth.{AddressPool}
use soro_fuzz.Core.Command.{
  Result, ok, err, Executed, unwound, str, TryResult, from_try_result, ExecContext,
}
use soro_fuzz.Core.Adapter.{Sdk}

-- How a contract function ends: it returns, it fails with a declared error, or it traps (a panic,
-- or a `require_auth` that does not pass).
pub data Called (A E : Type 0) : Type 0 where
  returns : A → Called A E
  fails : E → Called A E
  traps : Called A E

-- A contract function: what it reads, and the storage that it leaves.
abbrev pub Call : (Address S A E : Type 0) → Type 0
Call Address S A E = (Address → Bool) → ℕ → S → Called A E × S

infixl 5 ◌>>=◌ ◌>>◌
abbrev pub ◌>>=◌ :
    {Address S A B E : Type 0} → Call Address S A E → (A → Call Address S B E) → Call Address S B E
◌>>=◌ m f signed now s =
    let (r, s') = m signed now s in
    elim r [ returns a ↦ f a signed now s' | fails e ↦ (fails e, s') | traps ↦ (traps, s') ]

abbrev pub ◌>>◌ :
    {Address S B E : Type 0} → Call Address S (Unit {0}) E → Call Address S B E → Call Address S B E
m >> k = m >>= λ _. k

module _ {Address S E : Type 0} where
  abbrev pub pure : {A : Type 0} → A → Call Address S A E
  pure a signed now s = (returns a, s)

  -- `return Err(e)` behind a test, and `.ok_or(e)?`
  abbrev pub fail_if : Bool → E → Call Address S (Unit {0}) E
  fail_if c e signed now s = if c then (fails e, s) else (returns tt, s)

  abbrev pub ok_or : {A : Type 0} → Option A → E → Call Address S A E
  ok_or o e signed now s = elim o [ none ↦ (fails e, s) | some a ↦ (returns a, s) ]

  -- `.unwrap()`, and arithmetic whose overflow panics
  abbrev pub unwrap : {A : Type 0} → Option A → Call Address S A E
  unwrap o signed now s = elim o [ none ↦ (traps, s) | some a ↦ (returns a, s) ]

  abbrev pub require_auth : Address → Call Address S (Unit {0}) E
  require_auth a signed now s = if signed a then (returns tt, s) else (traps, s)

  abbrev pub timestamp : Call Address S ℕ E
  timestamp signed now s = (returns now, s)

  abbrev pub gets : {A : Type 0} → (S → A) → Call Address S A E
  gets f signed now s = (returns (f s), s)

  abbrev pub modify : (S → S) → Call Address S (Unit {0}) E
  modify f signed now s = (returns tt, f s)

pub data Val (Address : Type 0) : Type 0 where
  address : Address → Val Address
  int : ℤ → Val Address

-- `MockAuthInvoke`, and the invocation of a contract function (the examples make no sub-invocation)
pub record Invocation (Address : Type 0) : Type 0 where
  pub contract : Address
  pub fn_name : String
  pub args : List (Val Address)

pub record MockAuth (Address : Type 0) : Type 0 where
  pub signer : Address
  pub invoke : Invocation Address

-- The host, as far as the examples rely on it: a registered contract has the storage that its
-- constructor left; `mock_auths` decides alone whose `require_auth` passes; and a `try_*` call
-- runs the contract function, keeps its storage if it returns, and takes it back if it fails.
pub record Host {Address : Type 0} (sdk : Sdk Address) (S : Type 0) : Type 1 where
  pub ConvErr : Type 0
  pub InvokeError : Type 0
  pub debug_conv : ConvErr → String
  pub debug_invoke : InvokeError → String
  pub storage : Address → sdk.Env → S
  pub register : S → sdk.Env → Address × sdk.Env
  pub mock_auths : List (MockAuth Address) → sdk.Env → sdk.Env
  pub signed : sdk.Env → Invocation Address → Address → Bool
  pub try_invoke :
      {A E : Type 0}
      → Invocation Address
      → Call Address S A E
      → sdk.Env
      → TryResult A ConvErr E InvokeError × sdk.Env
  -- A generated client method that is no `try_*` one: `none` is its panic.
  pub invoke : {A E : Type 0} → Invocation Address → Call Address S A E → sdk.Env → Option A
  pub storage-register : (s : S) (env : sdk.Env) → storage (register s env).0 (register s env).1 ≡ s
  pub storage-set_timestamp :
      (id : Address) (t : ℕ) (env : sdk.Env) → storage id (sdk.set_timestamp t env) ≡ storage id env
  pub storage-mock_auths :
      (id : Address) (ms : List (MockAuth Address)) (env : sdk.Env)
      → storage id (mock_auths ms env) ≡ storage id env
  pub signed-mock_auths_self :
      (m : MockAuth Address) (env : sdk.Env)
      → signed (mock_auths (m ∷ []) env) m.invoke m.signer ≡ true
  pub signed-mock_auths_nil :
      (i : Invocation Address) (a : Address) (env : sdk.Env)
      → signed (mock_auths [] env) i a ≡ false
  pub try_invoke_returns :
      {A E : Type 0} (i : Invocation Address) (f : Call Address S A E) (env : sdk.Env) (a : A)
      (s : S)
      → f (signed env i) (sdk.timestamp env) (storage i.contract env) ≡ (returns a, s)
      → ((try_invoke i f env).0 ≡ ok (ok a)) × (storage i.contract (try_invoke i f env).1 ≡ s)
  pub try_invoke_fails :
      {A E : Type 0} (i : Invocation Address) (f : Call Address S A E) (env : sdk.Env) (x : E)
      (s : S)
      → f (signed env i) (sdk.timestamp env) (storage i.contract env) ≡ (fails x, s)
      → ((try_invoke i f env).0 ≡ err (ok x))
        × (storage i.contract (try_invoke i f env).1 ≡ storage i.contract env)
  pub try_invoke_traps :
      {A E : Type 0} (i : Invocation Address) (f : Call Address S A E) (env : sdk.Env) (s : S)
      → f (signed env i) (sdk.timestamp env) (storage i.contract env) ≡ (traps, s)
      → (x : InvokeError) × ((try_invoke i f env).0 ≡ err (err x))
        × (storage i.contract (try_invoke i f env).1 ≡ storage i.contract env)
  pub invoke_returns :
      {A E : Type 0} (i : Invocation Address) (f : Call Address S A E) (env : sdk.Env) (a : A)
      (s : S)
      → f (signed env i) (sdk.timestamp env) (storage i.contract env) ≡ (returns a, s)
      → invoke i f env ≡ some a

-- The panic of an index into an empty address pool.
abbrev pub no_address : Executed
no_address = unwound (str "attempt to calculate the remainder with a divisor of zero")

module _ {Address : Type 0} {sdk : Sdk Address} {S : Type 0} (host : Host sdk S) where
  -- `Outcome::from_try_result(client.try_f(..), required_auth_satisfied, code_of)`
  unfoldable pub try_call :
      {A E : Type 0}
      → Invocation Address
      → Call Address S A E
      → Bool
      → (E → ℕ)
      → sdk.Env
      → Executed × sdk.Env
  try_call i f required_auth_satisfied code_of env =
      let (r, env') = host.try_invoke i f env in
      (from_try_result host.debug_conv host.debug_invoke r required_auth_satisfied code_of, env')

  module _ ⦃e : Eq Address⦄ where
    -- Mocks the signer's authorization for the invocation if the step authorized the signer, and
    -- nothing otherwise; returns whether it did.
    unfoldable pub mock_single_auth :
        Address → Invocation Address → List Address → sdk.Env → Bool × sdk.Env
    mock_single_auth signer i authorizers env =
        let satisfied = contains authorizers signer in
        (
          satisfied,
          if satisfied
              then host.mock_auths (record { signer = signer; invoke = i } ∷ []) env
              else host.mock_auths [] env,
        )
