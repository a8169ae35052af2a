-- ===== src/Base/Text.antt =====
-- What `format!` makes of its parts, and the `Display` of the integers.
use Prim.Native.Nat.{ℕ, zero, suc, ◌/◌, ◌%◌}
use Prim.Native.Char.{code}
use Prim.Native.String.{String, ◌++◌}
use mathlib.Core.List.{List, [], ◌∷◌}
use soro_fuzz.Base.Tests.{nat_beq, leb, if◌then◌else◌}
use mathlib.Core.Bool.{Bool, true, ◌&&◌, ◌||◌}
use text.Mathlib.Text.{◌==◌ as text_beq}
use text.Mathlib.TextEquality.{eq_iff}
use soro_fuzz.Base.Tests.{Eq}

abbrev pub concat : List String → String
concat [] = ""
concat (s ∷ ss) = s ++ concat ss

digit : ℕ → String
digit zero = "0"
digit (suc zero) = "1"
digit (suc (suc zero)) = "2"
digit (suc (suc (suc zero))) = "3"
digit (suc (suc (suc (suc zero)))) = "4"
digit (suc (suc (suc (suc (suc zero))))) = "5"
digit (suc (suc (suc (suc (suc (suc zero)))))) = "6"
digit (suc (suc (suc (suc (suc (suc (suc zero))))))) = "7"
digit (suc (suc (suc (suc (suc (suc (suc (suc zero)))))))) = "8"
digit n = "9"

-- One round for each digit; `rest` is what stands behind the digits of `n`.
digits : ℕ → ℕ → String → String
digits zero n rest = rest
digits (suc fuel) n rest =
    let rest' = digit (n % 10) ++ rest in
    let more = digits fuel (n / 10) rest' in if nat_beq (n / 10) 0 then rest' else more

-- `n + 1` rounds are enough, since every round divides by ten.
unfoldable pub display_ℕ : ℕ → String
unfolding digits digit
display_ℕ n = digits (suc n) n ""

instance abbrev pub string_eq : Eq String
string_eq = record { beq = text_beq; beq_iff = eq_iff }

-- `char::is_whitespace`: the code points with the property `White_Space`.
unfoldable pub is_whitespace : ℕ → Bool
is_whitespace c =
    (leb 9 c && leb c 13)
    || nat_beq c 0x20
    || nat_beq c 0x85
    || nat_beq c 0xa0
    || nat_beq c 0x1680
    || (leb 0x2000 c && leb c 0x200a)
    || nat_beq c 0x2028
    || nat_beq c 0x2029
    || nat_beq c 0x202f
    || nat_beq c 0x205f
    || nat_beq c 0x3000

-- `s.trim().is_empty()`: all characters are white space.
unfoldable pub is_blank : String → Bool
unfolding is_whitespace
is_blank String.[] = true
is_blank (String.◌∷◌ c s) = is_whitespace (code c) && is_blank s
