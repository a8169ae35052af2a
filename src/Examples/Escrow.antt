-- ===== src/Examples/Escrow.antt =====
-- examples/escrow/src/lib.rs: the deadline-gated escrow contract.
pub mod Harness
pub mod Machine
pub mod Effects
pub mod Clean
use soro_fuzz.Base.{ℕ, ◌↔◌, ◌≡◌, Bool, true, false, not, Option, some, refl, leb, ltb}
use soro_fuzz.Int.{ℤ, pos}
use soro_fuzz.Examples.Host.{
  Call, ◌>>=◌, ◌>>◌, pure, fail_if, unwrap, require_auth, timestamp, gets, modify,
}

pub data Error : Type 0 where
  already_deposited not_deposited not_yet_expired already_expired : Error

-- `e as u32`
unfoldable pub code_of : Error → ℕ
code_of already_deposited = 1
code_of not_deposited = 2
code_of not_yet_expired = 3
code_of already_expired = 4

pub data Status : Type 0 where
  empty deposited released refunded : Status

-- `PartialEq` of `Status`
abbrev pub same_status : Status → Status → Bool
same_status empty empty = true
same_status deposited deposited = true
same_status released released = true
same_status refunded refunded = true
same_status _ _ = false

-- The instance storage, a field for each key.
pub record Storage (Address : Type 0) : Type 0 where
  pub depositor : Option Address
  pub beneficiary : Option Address
  pub deadline : Option ℕ  -- u64
  pub status : Option Status
  pub amount : Option ℤ  -- i128

module _ {Address : Type 0} where
  unfoldable pub constructor : Address → Address → ℕ → Storage Address
  constructor depositor beneficiary deadline = record {
    depositor = some depositor;
    beneficiary = some beneficiary;
    deadline = some deadline;
    status = some empty;
    amount = some (pos 0);
  }

  unfoldable pub deposit : ℤ → Call Address (Storage Address) (Unit {0}) Error
  deposit amount = do
    depositor ← unwrap (← gets (λ s. s.depositor))
    require_auth depositor
    status ← unwrap (← gets (λ s. s.status))
    fail_if (not (same_status status empty)) already_deposited
    modify (λ s. record s { amount = some amount })
    modify (λ s. record s { status = some deposited })

  -- Only before the deadline.
  unfoldable pub release : Call Address (Storage Address) (Unit {0}) Error
  release = do
    depositor ← unwrap (← gets (λ s. s.depositor))
    require_auth depositor
    status ← unwrap (← gets (λ s. s.status))
    fail_if (not (same_status status deposited)) not_deposited
    deadline ← unwrap (← gets (λ s. s.deadline))
    fail_if (leb deadline (← timestamp)) already_expired
    modify (λ s. record s { status = some released })

  -- Only at or after the deadline, by anyone.
  unfoldable pub refund : Call Address (Storage Address) (Unit {0}) Error
  refund = do
    status ← unwrap (← gets (λ s. s.status))
    fail_if (not (same_status status deposited)) not_deposited
    deadline ← unwrap (← gets (λ s. s.deadline))
    fail_if (ltb (← timestamp) deadline) not_yet_expired
    modify (λ s. record s { status = some refunded })

  unfoldable pub status_of : Call Address (Storage Address) Status Error
  status_of = do unwrap (← gets (λ s. s.status))
