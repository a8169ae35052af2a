-- ===== src/Examples/Token.antt =====
-- examples/token/src/lib.rs: the token contract.
pub mod Harness
pub mod Ledger
pub mod Effects
pub mod Settles
pub mod Clean
pub mod SelfTransfer
use soro_fuzz.Base.{ℕ, Bool, Option, some, none, unwrap_or, Eq, ◌==◌, if◌then◌else◌}
use soro_fuzz.Int.{ℤ, pos, ltb_ℤ, i128_min, i128_max, checked_add, checked_sub}
use soro_fuzz.Examples.Host.{
  Call, ◌>>=◌, ◌>>◌, pure, fail_if, ok_or, unwrap, require_auth, gets, modify,
}

pub data Error : Type 0 where
  insufficient_balance overflow negative_amount : Error

-- `e as u32`
unfoldable pub code_of : Error → ℕ
code_of insufficient_balance = 1
code_of overflow = 2
code_of negative_amount = 3

-- The storage, a field for each of the keys `Admin`, `TotalSupply` and `Balance(_)`.
pub record Storage (Address : Type 0) : Type 0 where
  pub admin : Option Address
  pub total_supply : Option ℤ  -- i128
  pub balances : Address → Option ℤ  -- i128

module _ {Address : Type 0} ⦃e : Eq Address⦄ where
  abbrev pub set_balance : Address → ℤ → Storage Address → Storage Address
  set_balance who value s = record s {
    balances = λ a. if who == a then some value else s.balances a;
  }

  abbrev pub set_total_supply : ℤ → Storage Address → Storage Address
  set_total_supply value s = record s { total_supply = some value }

  unfoldable pub constructor : Address → Address → ℤ → Storage Address
  constructor admin initial_holder initial_supply =
      set_balance initial_holder initial_supply
        (record { admin = some admin; total_supply = some initial_supply; balances = λ a. none })

  unfoldable pub balance : Address → Call Address (Storage Address) ℤ Error
  balance id = gets (λ s. unwrap_or (s.balances id) (pos 0))

  unfoldable pub total_supply : Call Address (Storage Address) ℤ Error
  total_supply = gets (λ s. unwrap_or s.total_supply (pos 0))

  unfoldable pub mint : Address → ℤ → Call Address (Storage Address) ℤ Error
  unfolding balance
  mint to amount = do
    fail_if (ltb_ℤ amount (pos 0)) negative_amount
    admin ← unwrap (← gets (λ s. s.admin))
    require_auth admin
    old_balance ← balance to
    new_balance ← ok_or (checked_add i128_min i128_max old_balance amount) overflow
    supply ← gets (λ s. unwrap_or s.total_supply (pos 0))
    new_supply ← ok_or (checked_add i128_min i128_max supply amount) overflow
    modify (set_balance to new_balance)
    modify (set_total_supply new_supply)
    pure new_balance

  -- `balance - amount` panics if it overflows.
  unfoldable pub burn : Address → ℤ → Call Address (Storage Address) ℤ Error
  unfolding balance
  burn from amount = do
    fail_if (ltb_ℤ amount (pos 0)) negative_amount
    require_auth from
    old_balance ← balance from
    fail_if (ltb_ℤ old_balance amount) insufficient_balance
    new_balance ← unwrap (checked_sub i128_min i128_max old_balance amount)
    supply ← gets (λ s. unwrap_or s.total_supply (pos 0))
    new_supply ← ok_or (checked_sub i128_min i128_max supply amount) overflow
    modify (set_balance from new_balance)
    modify (set_total_supply new_supply)
    pure new_balance

  unfoldable pub transfer : Address → Address → ℤ → Call Address (Storage Address) (Unit {0}) Error
  unfolding balance
  transfer from to amount = do
    fail_if (ltb_ℤ amount (pos 0)) negative_amount
    require_auth from
    from_balance ← balance from
    fail_if (ltb_ℤ from_balance amount) insufficient_balance
    new_from_balance ← unwrap (checked_sub i128_min i128_max from_balance amount)
    to_balance ← balance to
    new_to_balance ← ok_or (checked_add i128_min i128_max to_balance amount) overflow
    modify (set_balance from new_from_balance)
    modify (set_balance to new_to_balance)
