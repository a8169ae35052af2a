-- ===== src/Examples/Token/SelfTransfer.antt =====
-- `Token::transfer` (examples/token/src/lib.rs) from an address to itself.
use soro_fuzz.Base.{ℕ, ◌≡◌, Bool, true, false, Eq, arith, beq_refl, unwrap_or}
use soro_fuzz.Int.{
  ℤ, pos, ◌+ℤ◌, ◌-ℤ◌, ltb_ℤ, i128_min, i128_max, in_range, in_range_intro, in_range_bounds,
  le_of_ltb_ℤ, int_laws,
}
use soro_fuzz.Examples.Host.{returns}
use soro_fuzz.Examples.Token.{Storage, balance, transfer}

module _ {Address : Type 0} ⦃e : Eq Address⦄ where
  -- A signed transfer from an address to itself, of an amount that its balance covers and that does
  -- not overflow it, succeeds and adds the amount to the balance; the supply stays.
  pub transfer_self_inflates :
      (who : Address) (amount : ℤ) (signs : Address → Bool) (now : ℕ) (s : Storage Address)
      → let b = unwrap_or (s.balances who) (pos 0) in
        signs who ≡ true
        → in_range i128_min i128_max b ≡ true
        → ltb_ℤ amount (pos 0) ≡ false
        → ltb_ℤ b amount ≡ false
        → in_range i128_min i128_max (b +ℤ amount) ≡ true
        → let (r, s') = transfer who who amount signs now s in
          (r ≡ returns tt)
          × (unwrap_or (s'.balances who) (pos 0) ≡ b +ℤ amount)
          × (s'.total_supply ≡ s.total_supply)
  unfolding transfer balance
  transfer_self_inflates who amount signs now s auth held nonneg enough fits =
      let b = unwrap_or (s.balances who) (pos 0) in
      let low = le_of_ltb_ℤ amount (pos 0) nonneg in
      let high = le_of_ltb_ℤ b amount enough in
      let bound = in_range_bounds i128_min i128_max b held in
      let left : in_range i128_min i128_max (b -ℤ amount) ≡ true =
        in_range_intro i128_min i128_max (b -ℤ amount) (omega int_laws) (omega int_laws) in
      ground (arith, auth, nonneg, enough, left, fits, beq_refl who)
