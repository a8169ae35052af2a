-- ===== src/Strategies/Source.antt =====
-- `arbitrary::Unstructured`, the bytes of the fuzzer, as far as crates/strategies uses it: each call
-- takes from the bytes, or there are too few.
use soro_fuzz.Base.{ℕ, ◌≡◌, Bool, Option, none, some, List}
use soro_fuzz.Int.{ℤ, ◌≤ℤ◌}

pub record Source : Type 1 where
  pub Data : Type 0
  pub ratio : ℕ → ℕ → Data → Option (Bool × Data)
  pub int_in_range : ℤ → ℤ → Data → Option (ℤ × Data)
  pub u32 : Data → Option (ℕ × Data)
  pub fill_buffer : ℕ → Data → Option (List ℕ × Data)
  -- What is drawn from a range lies in it.
  pub int_in_range_bounds :
      (lo hi : ℤ) (d : Data) (z : ℤ) (d' : Data)
      → lo ≤ℤ hi
      → int_in_range lo hi d ≡ some (z, d')
      → (lo ≤ℤ z) × (z ≤ℤ hi)

infixl 5 ◌>>=◌
abbrev pub ◌>>=◌ : {A B : Type 0} → Option A → (A → Option B) → Option B
none >>= f = none
some a >>= f = f a
