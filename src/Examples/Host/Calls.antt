-- ===== src/Examples/Host/Calls.antt =====
-- What a `try_*` call of examples/*/src/harness.rs comes to, by how the contract function ends.
use soro_fuzz.Base.{
  ℕ, ◌≡◌, refl, ◌∙◌, ap, Bool, true, false, [], List, String, Eq, contains, Bool-cases, inl, inr,
  ◌⊎◌,
}
use soro_fuzz.Core.Command.{Outcome, declared_error, rejected, returned, from_try_result}
use soro_fuzz.Core.Adapter.{Sdk}
use soro_fuzz.Examples.Host.{
  Called, returns, fails, traps, Call, Invocation, Host, try_call, mock_single_auth,
}

module _ {Address : Type 0} {sdk : Sdk Address} {S : Type 0} (host : Host sdk S) where
  open host use {storage, signed}

  module _ {A E : Type 0} (i : Invocation Address) (f : Call Address S A E) (auth : Bool)
      (code_of : E → ℕ) (env : sdk.Env) where
    -- The contract function on what the host holds.
    abbrev pub on_host : Called A E × S
    on_host = f (signed env i) (sdk.timestamp env) (storage i.contract env)

    pub try_call-returns :
        (a : A) (s : S)
        → on_host ≡ (returns a, s)
        → ((try_call host i f auth code_of env).0 ≡ returned Outcome.ok)
          × (storage i.contract (try_call host i f auth code_of env).1 ≡ s)
    unfolding try_call from_try_result
    try_call-returns a s h =
        let (r, kept) = host.try_invoke_returns i f env a s h in (rw (r, from_try_result), kept)

    pub try_call-fails :
        (x : E) (s : S)
        → on_host ≡ (fails x, s)
        → ((try_call host i f auth code_of env).0 ≡ returned (declared_error (code_of x)))
          × (storage i.contract (try_call host i f auth code_of env).1 ≡ storage i.contract env)
    unfolding try_call from_try_result
    try_call-fails x s h =
        let (r, kept) = host.try_invoke_fails i f env x s h in (rw (r, from_try_result), kept)

    pub try_call-traps :
        (s : S)
        → on_host ≡ (traps, s)
        → auth ≡ false
        → (m : String) × ((try_call host i f auth code_of env).0 ≡ returned (rejected m))
          × (storage i.contract (try_call host i f auth code_of env).1 ≡ storage i.contract env)
    unfolding try_call from_try_result
    try_call-traps s h withheld =
        let (x, r, kept) = host.try_invoke_traps i f env s h in
        (host.debug_invoke x, rw (r, from_try_result) (rw withheld), kept)

  module _ ⦃e : Eq Address⦄ (signer : Address) (i : Invocation Address) (authorizers : List Address)
      (env : sdk.Env) where
    -- After the mocking, the signer's `require_auth` passes for this invocation exactly if the
    -- step authorized the signer; the storage is as it was.
    pub mock_single_auth_lem :
        ((mock_single_auth host signer i authorizers env).0 ≡ contains authorizers signer)
        × (signed (mock_single_auth host signer i authorizers env).1 i signer
            ≡ contains authorizers signer)
        × (storage i.contract (mock_single_auth host signer i authorizers env).1
            ≡ storage i.contract env)
    unfolding mock_single_auth
    mock_single_auth_lem = elim (Bool-cases (contains authorizers signer)) [
      | inl yes_ ↦ rw yes_ (
        refl,
        host.signed-mock_auths_self (record { signer = signer; invoke = i }) env,
        host.storage-mock_auths i.contract _ env,
      )
      | inr no_ ↦
          rw no_ (
            refl,
            host.signed-mock_auths_nil i signer env,
            host.storage-mock_auths i.contract [] env,
          )
    ]

-- How a call is classified whose contract function does not trap, and the storage that it leaves.
module _ {A E : Type 0} where
  abbrev pub settled_outcome : (E → ℕ) → Called A E → Outcome
  settled_outcome code_of (returns _) = Outcome.ok
  settled_outcome code_of (fails x) = declared_error (code_of x)
  settled_outcome code_of traps = Outcome.ok

  abbrev pub settled_storage : {S : Type 0} → S → Called A E × S → S
  settled_storage s (returns _, s') = s'
  settled_storage s (fails _, s') = s
  settled_storage s (traps, s') = s

  abbrev pub IsSettled : Called A E → Type 0
  IsSettled (returns _) = Unit
  IsSettled (fails _) = Unit
  IsSettled traps = ⊥

module _ {Address : Type 0} {sdk : Sdk Address} {S : Type 0} (host : Host sdk S) where
  pub try_call_settles :
      {A E : Type 0} (i : Invocation Address) (f : Call Address S A E) (auth : Bool)
      (code_of : E → ℕ) (env : sdk.Env) (r : Called A E) (s' : S)
      → on_host host i f auth code_of env ≡ (r, s')
      → IsSettled r
      → ((try_call host i f auth code_of env).0 ≡ returned (settled_outcome code_of r))
        × (host.storage i.contract (try_call host i f auth code_of env).1
            ≡ settled_storage (host.storage i.contract env) (r, s'))
  try_call_settles i f auth code_of env (returns a) s' h c =
      try_call-returns host i f auth code_of env a s' h
  try_call_settles i f auth code_of env (fails x) s' h c =
      try_call-fails host i f auth code_of env x s' h
  try_call_settles i f auth code_of env traps s' h c = absurd c

  -- The same of a call that is made behind the mocked auth of one signer, where the contract
  -- function traps if the signer's `require_auth` does not pass.
  pub gated_call_settles :
      ⦃e : Eq Address⦄ {A E : Type 0} (signer : Address) (i : Invocation Address)
      (f : Call Address S A E) (code_of : E → ℕ) (authorizers : List Address) (env : sdk.Env)
      (s : S) (spec : ℕ → Called A E × S)
      → host.storage i.contract env ≡ s
      → ((now : ℕ) → IsSettled (spec now).0)
      → ((signs : Address → Bool) (now : ℕ) → signs signer ≡ true → f signs now s ≡ spec now)
      → ((signs : Address → Bool) (now : ℕ) → signs signer ≡ false → f signs now s ≡ (traps, s))
      → let (auth, env') = mock_single_auth host signer i authorizers env in
        let (x, env'') = try_call host i f auth code_of env' in
        ((now : ℕ) × (contains authorizers signer ≡ true)
          × (x ≡ returned (settled_outcome code_of (spec now).0))
          × (host.storage i.contract env'' ≡ settled_storage s (spec now)))
        ⊎ ((m : String) × (contains authorizers signer ≡ false)
            × (x ≡ returned (rejected m))
            × (host.storage i.contract env'' ≡ s))
  gated_call_settles signer i f code_of authorizers env s spec h settles lets_in keeps_out =
      let (auth, env') = mock_single_auth host signer i authorizers env in
      let (satisfied, signs, kept) = mock_single_auth_lem host signer i authorizers env in
      let held = kept ∙ h in
      let now = sdk.timestamp env' in
      elim (Bool-cases (contains authorizers signer)) [
        | inl yes_ ↦
            let (r, left) =
              try_call_settles i f auth code_of env' (spec now).0 (spec now).1
                (rw held (lets_in _ _ (signs ∙ yes_))) (settles now) in
            inl (now, yes_, r, left ∙ ap (λ t. settled_storage t (spec now)) held)
        | inr no_ ↦
            let (m, r, same) =
              try_call-traps host i f auth code_of env' s (rw held (keeps_out _ _ (signs ∙ no_)))
                (satisfied ∙ no_) in
            inr (m, no_, r, same ∙ held)
      ]
