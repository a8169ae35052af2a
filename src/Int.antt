-- ===== src/Int.antt =====
-- Signed integers over the native numbers, and the arithmetic of Rust's `i64` and `i128` on them.
use soro_fuzz.Base.{
  ℕ, suc, ◌+◌, ◌-◌, ◌%◌, ◌^◌, ◌≤◌, ◌≡◌, ◌↔◌, Bool, true, false, ◌&&◌, Option, none, some, [], ◌∷◌,
  String, arith, leb, ltb, Eq, concat, display_ℕ, if◌then◌else◌,
}

-- `negsuc n` is -(n + 1)
pub data ℤ : Type 0 where
  pos : ℕ → ℤ
  negsuc : ℕ → ℤ

abbrev pub pos_part : ℤ → ℕ
pos_part (pos n) = n
pos_part (negsuc n) = 0

abbrev pub neg_part : ℤ → ℕ
neg_part (pos n) = 0
neg_part (negsuc n) = suc n

abbrev pub sub_ℕ : ℕ → ℕ → ℤ
sub_ℕ a b = if leb b a then pos (a - b) else negsuc (b - a - 1)

infixl 65 ◌+ℤ◌ ◌-ℤ◌
infix 50 ◌≤ℤ◌
unfoldable pub ◌+ℤ◌ : ℤ → ℤ → ℤ
a +ℤ b = sub_ℕ (pos_part a + pos_part b) (neg_part a + neg_part b)

unfoldable pub ◌-ℤ◌ : ℤ → ℤ → ℤ
a -ℤ b = sub_ℕ (pos_part a + neg_part b) (neg_part a + pos_part b)

abbrev pub ◌≤ℤ◌ : ℤ → ℤ → Type 0
a ≤ℤ b = pos_part a + neg_part b ≤ pos_part b + neg_part a

abbrev pub leb_ℤ : ℤ → ℤ → Bool
leb_ℤ a b = leb (pos_part a + neg_part b) (pos_part b + neg_part a)

abbrev pub ltb_ℤ : ℤ → ℤ → Bool
ltb_ℤ a b = ltb (pos_part a + neg_part b) (pos_part b + neg_part a)

abbrev pub beq_ℤ : ℤ → ℤ → Bool
beq_ℤ a b = leb_ℤ a b && leb_ℤ b a

-- With these the operations stay shut.
pub +ℤ_parts :
    (a b : ℤ)
    → pos_part (a +ℤ b) + neg_part a + neg_part b ≡ neg_part (a +ℤ b) + pos_part a + pos_part b
unfolding ◌+ℤ◌
+ℤ_parts a b = ground arith

pub -ℤ_parts :
    (a b : ℤ)
    → pos_part (a -ℤ b) + neg_part a + pos_part b ≡ neg_part (a -ℤ b) + pos_part a + neg_part b
unfolding ◌-ℤ◌
-ℤ_parts a b = ground arith

pub eq_of_parts : (a b : ℤ) → pos_part a + neg_part b ≡ pos_part b + neg_part a → a ≡ b
eq_of_parts a b h = ground arith

pub ruleset int_laws = (arith, +ℤ_parts, -ℤ_parts, eq_of_parts)

pub beq_ℤ_iff : (a b : ℤ) → (beq_ℤ a b ≡ true) ↔ (a ≡ b)
beq_ℤ_iff a b = (λ h. eq_of_parts a b (ground arith), λ h. ground arith)

instance abbrev pub int_eq : Eq ℤ
int_eq = record { beq = beq_ℤ; beq_iff = beq_ℤ_iff }

abbrev pub i32_min : ℤ
i32_min = negsuc 2147483647

abbrev pub i32_max : ℤ
i32_max = pos 2147483647

-- A signed machine type, as the range of its values.
abbrev pub in_range : ℤ → ℤ → ℤ → Bool
in_range lo hi z = leb_ℤ lo z && leb_ℤ z hi

abbrev pub i64_min : ℤ
i64_min = negsuc 9223372036854775807

abbrev pub i64_max : ℤ
i64_max = pos 9223372036854775807

abbrev pub i128_min : ℤ
i128_min = negsuc 170141183460469231731687303715884105727

abbrev pub i128_max : ℤ
i128_max = pos 170141183460469231731687303715884105727

-- `checked_add`, and `+` where an overflow panics: `none` is the overflow.
abbrev pub checked_add : ℤ → ℤ → ℤ → ℤ → Option ℤ
checked_add lo hi a b = let c = a +ℤ b in if in_range lo hi c then some c else none

abbrev pub checked_sub : ℤ → ℤ → ℤ → ℤ → Option ℤ
checked_sub lo hi a b = let c = a -ℤ b in if in_range lo hi c then some c else none

abbrev pub clamp : ℤ → ℤ → ℤ → ℤ
clamp lo hi z = if ltb_ℤ z lo then lo else if ltb_ℤ hi z then hi else z

abbrev pub saturating_add : ℤ → ℤ → ℤ → ℤ → ℤ
saturating_add lo hi a b = clamp lo hi (a +ℤ b)

abbrev pub saturating_sub : ℤ → ℤ → ℤ → ℤ → ℤ
saturating_sub lo hi a b = clamp lo hi (a -ℤ b)

-- `Display` of a signed integer
unfoldable pub display : ℤ → String
display (pos n) = display_ℕ n
display (negsuc n) = concat ("-" ∷ display_ℕ (suc n) ∷ [])

-- `as i64`: the low 64 bits, read as a two's complement number.
unfoldable pub as_i64 : ℤ → ℤ
as_i64 (pos n) =
    let bits = n % 2 ^ 64 in if ltb bits (2 ^ 63) then pos bits else negsuc (2 ^ 64 - 1 - bits)
as_i64 (negsuc n) =
    let bits = n % 2 ^ 64 in if ltb bits (2 ^ 63) then negsuc bits else pos (2 ^ 64 - 1 - bits)

pub as_i64-in_range : (z : ℤ) → in_range i64_min i64_max z ≡ true → as_i64 z ≡ z
unfolding as_i64
as_i64-in_range (pos n) h = ground arith
as_i64-in_range (negsuc n) h = ground arith

-- `as i32`: the low 32 bits, read as a two's complement number.
unfoldable pub as_i32 : ℤ → ℤ
as_i32 (pos n) =
    let bits = n % 2 ^ 32 in if ltb bits (2 ^ 31) then pos bits else negsuc (2 ^ 32 - 1 - bits)
as_i32 (negsuc n) =
    let bits = n % 2 ^ 32 in if ltb bits (2 ^ 31) then negsuc bits else pos (2 ^ 32 - 1 - bits)

pub as_i32_pos : (n : ℕ) → n ≤ 2147483647 → as_i32 (pos n) ≡ pos n
unfolding as_i32
as_i32_pos n h = ground arith

pub in_range_intro : (lo hi z : ℤ) → lo ≤ℤ z → z ≤ℤ hi → in_range lo hi z ≡ true
in_range_intro lo hi z low high = ground arith

pub in_range_bounds : (lo hi z : ℤ) → in_range lo hi z ≡ true → (lo ≤ℤ z) × (z ≤ℤ hi)
in_range_bounds lo hi z h = ground arith

pub le_of_ltb_ℤ : (a b : ℤ) → ltb_ℤ a b ≡ false → b ≤ℤ a
le_of_ltb_ℤ a b h = ground arith
