-- ===== src/Examples/Counter.antt =====
-- examples/counter/src/lib.rs: the counter contract.
pub mod Harness
pub mod Effects
pub mod Clean
pub mod Broken
pub mod Caught
use soro_fuzz.Base.{ℕ, Option, none, some, unwrap_or}
use soro_fuzz.Int.{ℤ, pos, i64_min, i64_max, checked_add, checked_sub}
use soro_fuzz.Examples.Host.{Call, ◌>>=◌, ◌>>◌, pure, ok_or, unwrap, require_auth, gets, modify}

pub data Error : Type 0 where
  overflow underflow : Error

-- `e as u32`
unfoldable pub code_of : Error → ℕ
code_of overflow = 1
code_of underflow = 2

-- The instance storage, a field for each key.
pub record Storage (Address : Type 0) : Type 0 where
  pub count : Option ℤ  -- i64
  pub admin : Option Address

module _ {Address : Type 0} where
  unfoldable pub constructor : Address → Storage Address
  constructor admin = record { count = some (pos 0); admin = some admin }

  unfoldable pub increment : Call Address (Storage Address) ℤ Error
  increment = do
    count ← gets (λ s. unwrap_or s.count (pos 0))
    new_count ← ok_or (checked_add i64_min i64_max count (pos 1)) overflow
    modify (λ s. record s { count = some new_count })
    pure new_count

  unfoldable pub decrement : Call Address (Storage Address) ℤ Error
  decrement = do
    count ← gets (λ s. unwrap_or s.count (pos 0))
    new_count ← ok_or (checked_sub i64_min i64_max count (pos 1)) underflow
    modify (λ s. record s { count = some new_count })
    pure new_count

  unfoldable pub reset : Call Address (Storage Address) ℤ Error
  reset = do
    admin ← unwrap (← gets (λ s. s.admin))
    require_auth admin
    modify (λ s. record s { count = some (pos 0) })
    pure (pos 0)

  unfoldable pub set : ℤ → Call Address (Storage Address) ℤ Error
  set value = do
    admin ← unwrap (← gets (λ s. s.admin))
    require_auth admin
    modify (λ s. record s { count = some value })
    pure value

  unfoldable pub get : Call Address (Storage Address) ℤ Error
  get = gets (λ s. unwrap_or s.count (pos 0))
