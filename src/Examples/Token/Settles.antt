-- ===== src/Examples/Token/Settles.antt =====
-- What a call of examples/token/src/harness.rs comes to behind the mocked auth of one signer.
use soro_fuzz.Base.{
  ℕ, ◌≡◌, refl, ◌∙◌, Bool, true, false, Option, some, List, Eq, Bool-cases, inl, inr, ◌⊎◌, arith,
  contains,
}
use soro_fuzz.Int.{ℤ, pos, ltb_ℤ}
use soro_fuzz.Core.Command.{Outcome, declared_error, rejected, is_ok, Executed, returned}
use soro_fuzz.Core.Adapter.{Sdk}
use soro_fuzz.Core.Harness.Clean.{IsBenign}
use soro_fuzz.Examples.Host.{fails, traps, Call, Invocation, Host, mock_single_auth}
use soro_fuzz.Examples.Host.Calls.{
  try_call-returns, try_call-fails, try_call-traps, mock_single_auth_lem,
}
use soro_fuzz.Examples.Token
use soro_fuzz.Examples.Token.{Storage, Error, code_of, negative_amount, balance}
use soro_fuzz.Examples.Token.Harness.{TokenModel, gated}
use soro_fuzz.Examples.Token.Effects.{Books, Effect, failed, returned}

module _ {Address : Type 0} ⦃e : Eq Address⦄ {sdk : Sdk Address}
    (host : Host sdk (Storage Address)) where
  -- What a call comes to: it is signed, succeeds, and leaves the updated model's books; or it comes
  -- to an outcome that is no finding, and leaves the storage.
  pub data Settled (id signer admin : Address) (authorizers : List Address) (s : Storage Address)
      (updated : Option (TokenModel Address)) (x : Executed × sdk.Env) : Type 0 where
    succeeded :
        (m' : TokenModel Address)
        → contains authorizers signer ≡ true
        → x.0 ≡ Executed.returned Outcome.ok
        → updated ≡ some m'
        → m'.admin ≡ admin
        → Books (host.storage id x.1) m'
        → Settled id signer admin authorizers s updated x
    refused :
        (o : Outcome)
        → IsBenign o
        → is_ok o ≡ false
        → x.0 ≡ Executed.returned o
        → host.storage id x.1 ≡ s
        → Settled id signer admin authorizers s updated x

  pub gated_settles :
      {A : Type 0} (signer admin : Address) (i : Invocation Address)
      (f : Call Address (Storage Address) A Error) (authorizers : List Address) (env : sdk.Env)
      (updated : Option (TokenModel Address))
      → let s = host.storage i.contract env in
        ((signs : Address → Bool) (now : ℕ)
          → signs signer ≡ true
          → Effect admin s updated (f signs now s))
        → ((signs : Address → Bool) (now : ℕ)
            → signs signer ≡ false
            → (f signs now s ≡ (traps, s)) ⊎ ((x : Error) × (f signs now s ≡ (fails x, s))))
        → Settled i.contract signer admin authorizers s updated
            (gated host signer i f authorizers env)
  unfolding gated is_ok
  gated_settles signer admin i f authorizers env updated lets_in keeps_out =
      let (auth, env') = mock_single_auth host signer i authorizers env in
      let (satisfied, signs, kept) = mock_single_auth_lem host signer i authorizers env in
      let now = sdk.timestamp env' in
      let s = host.storage i.contract env in
      elim (Bool-cases (contains authorizers signer)) [
        | inl yes_ ↦ elim (lets_in (host.signed env' i) now (signs ∙ yes_)) [
          | failed x p ↦
              let (r, left) = try_call-fails host i f auth code_of env' x s (rw kept p) in
              refused (declared_error (code_of x)) tt refl r (left ∙ kept)
          | returned v s' m' p up same books ↦
              let (r, left) = try_call-returns host i f auth code_of env' v s' (rw kept p) in
              succeeded m' yes_ r up same (rw left books)
        ]
        | inr no_ ↦ elim (keeps_out (host.signed env' i) now (signs ∙ no_)) [
          | inl p ↦
              let (m, r, left) =
                try_call-traps host i f auth code_of env' s (rw kept p) (satisfied ∙ no_) in
              refused (rejected m) tt refl r (left ∙ kept)
          | inr (x, p) ↦
              let (r, left) = try_call-fails host i f auth code_of env' x s (rw kept p) in
              refused (declared_error (code_of x)) tt refl r (left ∙ kept)
        ]
      ]

module _ {Address : Type 0} ⦃e : Eq Address⦄ where
  -- Unsigned, a command fails on a negative amount, and traps otherwise.
  pub mint_unsigned :
      (s : Storage Address) (to admin : Address) (amount : ℤ) (signs : Address → Bool) (now : ℕ)
      → s.admin ≡ some admin
      → signs admin ≡ false
      → (Token.mint to amount signs now s ≡ (traps, s))
        ⊎ ((x : Error) × (Token.mint to amount signs now s ≡ (fails x, s)))
  unfolding Token.mint balance
  mint_unsigned s to admin amount signs now held no_ = elim (Bool-cases (ltb_ℤ amount (pos 0))) [
    | inl negative ↦ inr (negative_amount, ground (arith, negative))
    | inr nonneg ↦ inl (ground (arith, nonneg, held, no_))
  ]

  pub burn_unsigned :
      (s : Storage Address) (from : Address) (amount : ℤ) (signs : Address → Bool) (now : ℕ)
      → signs from ≡ false
      → (Token.burn from amount signs now s ≡ (traps, s))
        ⊎ ((x : Error) × (Token.burn from amount signs now s ≡ (fails x, s)))
  unfolding Token.burn balance
  burn_unsigned s from amount signs now no_ = elim (Bool-cases (ltb_ℤ amount (pos 0))) [
    | inl negative ↦ inr (negative_amount, ground (arith, negative))
    | inr nonneg ↦ inl (ground (arith, nonneg, no_))
  ]

  pub transfer_unsigned :
      (s : Storage Address) (from to : Address) (amount : ℤ) (signs : Address → Bool) (now : ℕ)
      → signs from ≡ false
      → (Token.transfer from to amount signs now s ≡ (traps, s))
        ⊎ ((x : Error) × (Token.transfer from to amount signs now s ≡ (fails x, s)))
  unfolding Token.transfer balance
  transfer_unsigned s from to amount signs now no_ = elim (Bool-cases (ltb_ℤ amount (pos 0))) [
    | inl negative ↦ inr (negative_amount, ground (arith, negative))
    | inr nonneg ↦ inl (ground (arith, nonneg, no_))
  ]
