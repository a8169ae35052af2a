-- ===== src/Examples/Escrow/Machine.antt =====
-- The state machine of the escrow contract, examples/escrow/src/lib.rs.
use soro_fuzz.Base.{
  ℕ, ◌≤◌, ◌<◌, ◌≡◌, refl, ◌↔◌, ◌⊎◌, inl, inr, Bool, true, false, some, arith, leb, ltb, List, [],
  ◌∷◌, Bool-cases, if◌then◌else◌,
}
use soro_fuzz.Int.{ℤ}
use soro_fuzz.Examples.Host.{Called, returns, fails, traps, Call}
use soro_fuzz.Examples.Host.Calls.{settled_storage}
use soro_fuzz.Examples.Escrow.{
  Error, already_deposited, not_deposited, not_yet_expired, already_expired, Status, empty,
  deposited, released, refunded, same_status, Storage, deposit, release, refund,
}

abbrev pub succeeds : {A E : Type 0} → Called A E → Bool
succeeds (returns _) = true
succeeds (fails _) = false
succeeds traps = false

-- The steps of the machine: what a call that is made at some time, signed by some addresses, does
-- to the status and the amount.
pub data Moves (signed : Bool) (now deadline : ℕ) : Status → ℤ → Status → ℤ → Type 0 where
  deposits : {old new : ℤ} → signed ≡ true → Moves signed now deadline empty old deposited new
  releases :
      {held : ℤ}
      → signed ≡ true
      → now < deadline
      → Moves signed now deadline deposited held released held
  refunds : {held : ℤ} → deadline ≤ now → Moves signed now deadline deposited held refunded held

pub data EscrowCall : Type 0 where
  calls_deposit : ℤ → EscrowCall
  calls_release calls_refund : EscrowCall

abbrev pub IsFinal : Status → Type 0
IsFinal status = (status ≡ released) ⊎ (status ≡ refunded)

stuck :
    {signed : Bool} {now deadline : ℕ} {status status' : Status} {held held' : ℤ}
    → Moves signed now deadline status held status' held'
    → IsFinal status
    → ⊥
stuck (deposits p) f = ground arith
stuck (releases p q) f = ground arith
stuck (refunds p) f = ground arith

module _ {Address : Type 0} where
  -- The storage of a contract that was constructed.
  abbrev pub holding : Address → Address → ℕ → Status → ℤ → Storage Address
  holding depositor beneficiary deadline status amount = record {
    depositor = some depositor;
    beneficiary = some beneficiary;
    deadline = some deadline;
    status = some status;
    amount = some amount;
  }

  module _ (d b : Address) (deadline : ℕ) (status : Status) (held : ℤ) where
    abbrev pub here : Storage Address
    here = holding d b deadline status held

    -- What each function does behind its `require_auth`.
    abbrev pub deposit_spec : ℤ → Called (Unit {0}) Error × Storage Address
    deposit_spec amount =
        if same_status status empty
        then (returns tt, holding d b deadline deposited amount)
        else (fails already_deposited, here)

    abbrev pub release_spec : ℕ → Called (Unit {0}) Error × Storage Address
    release_spec now =
        if same_status status deposited
        then (if leb deadline now
            then (fails already_expired, here)
            else (returns tt, holding d b deadline released held))
        else (fails not_deposited, here)

    abbrev pub refund_spec : ℕ → Called (Unit {0}) Error × Storage Address
    refund_spec now =
        if same_status status deposited
        then (if ltb now deadline
            then (fails not_yet_expired, here)
            else (returns tt, holding d b deadline refunded held))
        else (fails not_deposited, here)

    module _ (signs : Address → Bool) (now : ℕ) where
      pub deposit_signed :
          (amount : ℤ) → signs d ≡ true → deposit amount signs now here ≡ deposit_spec amount
      unfolding deposit
      deposit_signed amount h = ground arith

      pub deposit_unsigned :
          (amount : ℤ) → signs d ≡ false → deposit amount signs now here ≡ (traps, here)
      unfolding deposit
      deposit_unsigned amount h = ground arith

      pub release_signed : signs d ≡ true → release signs now here ≡ release_spec now
      unfolding release
      release_signed h = ground arith

      pub release_unsigned : signs d ≡ false → release signs now here ≡ (traps, here)
      unfolding release
      release_unsigned h = ground arith

      pub refund_lem : refund signs now here ≡ refund_spec now
      unfolding refund
      refund_lem = ground arith

  -- In a constructed escrow: a deposit succeeds exactly if the depositor signs and nothing was
  -- deposited before; a release exactly if the depositor signs, the escrow is deposited and the
  -- deadline is not reached; and a refund, whoever signs, exactly if it is deposited and the
  -- deadline is reached.
  pub escrow_guards :
      (d b : Address) (deadline : ℕ) (status : Status) (held amount : ℤ) (signs : Address → Bool)
      (now : ℕ)
      → let s = holding d b deadline status held in
        ((succeeds (deposit amount signs now s).0 ≡ true) ↔ ((signs d ≡ true) × (status ≡ empty)))
        × ((succeeds (release signs now s).0 ≡ true)
            ↔ ((signs d ≡ true) × (status ≡ deposited) × (now < deadline)))
        × ((succeeds (refund signs now s).0 ≡ true) ↔ ((status ≡ deposited) × (deadline ≤ now)))
  unfolding deposit release refund
  escrow_guards d b deadline empty held amount signs now = (
    (λ h. ground arith, λ h. ground arith),
    (λ h. ground arith, λ h. ground arith),
    (λ h. ground arith, λ h. ground arith),
  )
  escrow_guards d b deadline _ held amount signs now = (
    (λ h. ground arith, λ h. ground arith),
    (λ h. ground arith, λ h. ground arith),
    (λ h. ground arith, λ h. ground arith),
  )

  pub run_call : EscrowCall → Call Address (Storage Address) (Unit {0}) Error
  run_call (calls_deposit amount) = deposit amount
  run_call calls_release = release
  run_call calls_refund = refund

  -- The storage that a call leaves behind: that of the call if it returns, and the old one if not.
  pub commit : EscrowCall → (Address → Bool) → ℕ → Storage Address → Storage Address
  unfolding run_call
  commit call signs now s = settled_storage s (run_call call signs now s)

  -- A sequence of calls, each with its signers and its time.
  pub commit_all : List (EscrowCall × (Address → Bool) × ℕ) → Storage Address → Storage Address
  unfolding commit
  commit_all [] s = s
  commit_all ((call, signs, now) ∷ rest) s = commit_all rest (commit call signs now s)

  -- A call leaves a constructed escrow as it is, or takes a step of the machine with it; the
  -- parties and the deadline stay.
  pub commit-Moves :
      (call : EscrowCall) (signs : Address → Bool) (now : ℕ) (d b : Address) (deadline : ℕ)
      (status : Status) (held : ℤ)
      → let s = holding d b deadline status held in
        (commit call signs now s ≡ s)
        ⊎ ((status' : Status) × (held' : ℤ) × (commit call signs now s
              ≡ holding d b deadline status' held')
            × Moves (signs d) now deadline status held status' held')
  unfolding commit deposit release refund
  commit-Moves (calls_deposit amount) signs now d b deadline empty held =
      elim (Bool-cases (signs d)) [
        | inl yes_ ↦ inr (deposited, amount, ground arith, deposits yes_)
        | inr no_ ↦ inl (ground arith)
      ]
  commit-Moves calls_release signs now d b deadline deposited held = elim (Bool-cases (signs d)) [
    | inl yes_ ↦ elim (Bool-cases (leb deadline now)) [
      | inl late ↦ inl (ground arith)
      | inr early ↦ inr (released, held, ground arith, releases yes_ (ground arith))
    ]
    | inr no_ ↦ inl (ground arith)
  ]
  commit-Moves calls_refund signs now d b deadline deposited held =
      elim (Bool-cases (ltb now deadline)) [
        | inl early ↦ inl (ground arith)
        | inr late ↦ inr (refunded, held, ground arith, refunds (ground arith))
      ]
  commit-Moves _ signs now d b deadline _ held = inl (ground arith)

  commit_final :
      (call : EscrowCall) (signs : Address → Bool) (now : ℕ) (d b : Address) (deadline : ℕ)
      (status : Status) (held : ℤ)
      → IsFinal status
      → commit call signs now (holding d b deadline status held) ≡ holding d b deadline status held
  commit_final call signs now d b deadline status held f =
      elim (commit-Moves call signs now d b deadline status held) [
        | inl same ↦ same
        | inr (status', held', p, m) ↦ absurd (stuck m f)
      ]

  -- Once released or refunded, an escrow stays as it is through any calls, whoever signs them and
  -- whenever they are made.
  pub final_stays :
      (calls : List (EscrowCall × (Address → Bool) × ℕ)) (d b : Address) (deadline : ℕ)
      (status : Status) (held : ℤ)
      → IsFinal status
      → commit_all calls (holding d b deadline status held) ≡ holding d b deadline status held
  unfolding commit_all
  final_stays [] d b deadline status held f = refl
  final_stays ((call, signs, now) ∷ rest) d b deadline status held f =
      rw (commit_final call signs now d b deadline status held f)
        (final_stays rest d b deadline status held f)
