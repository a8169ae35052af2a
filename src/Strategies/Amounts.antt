-- ===== src/Strategies/Amounts.antt =====
-- crates/strategies/src/amounts.rs: bounded amounts.
pub mod Range
use soro_fuzz.Base.{ℕ, Option, none, some, if◌then◌else◌}
use soro_fuzz.Int.{
  ℤ, pos, in_range, i128_min, i128_max, beq_ℤ, clamp, saturating_add, saturating_sub,
}
use soro_fuzz.Strategies.Source.{Source, ◌>>=◌}

pub record BoundedI128 (lo hi : ℤ) : Type 0 where
  pub value : ℤ  -- i128

abbrev pub NonNegativeI128 : Type 0
NonNegativeI128 = BoundedI128 (pos 0) i128_max

-- `none` is the failed assertion.
unfoldable pub new : (lo hi : ℤ) → ℤ → Option (BoundedI128 lo hi)
new lo hi value = if in_range lo hi value then some (record { value = value }) else none

-- The value for each of the five choices.
abbrev pub edge : ℤ → ℤ → ℤ → ℤ
edge lo hi choice =
    if beq_ℤ choice (pos 0)
    then lo
    else if beq_ℤ choice (pos 1)
    then hi
    else if beq_ℤ choice (pos 2)
    then clamp lo hi (pos 0)
    else if beq_ℤ choice (pos 3)
    then saturating_add i128_min i128_max lo (pos 1)
    else saturating_sub i128_min i128_max hi (pos 1)

-- `Arbitrary::arbitrary`, for a range that is not empty.
unfoldable pub arbitrary :
    (source : Source) (lo hi : ℤ) → source.Data → Option (BoundedI128 lo hi × source.Data)
arbitrary source lo hi u = do
  (at_edge, u') ← source.ratio 1 4 u
  (if at_edge
      then (do
        (choice, u'') ← source.int_in_range (pos 0) (pos 4) u'
        some (record { value = edge lo hi choice }, u''))
      else (do (value, u'') ← source.int_in_range lo hi u'; some (record { value = value }, u'')))
