-- ===== src/Base/Parse.antt =====
-- `str::parse` for the integers, `str::trim`, and the length in bytes.
use Prim.Native.Char.{code}
use Prim.Native.String.{String}
use Prim.Native.Nat.{ℕ, ◌+◌, ◌-◌, ◌*◌, ◌≤◌}
use mathlib.Core.Bool.{Bool, true, false, ◌&&◌}
use mathlib.Core.Option.{Option, none, some}
use native.Mathlib.Omega.{arith}
use soro_fuzz.Base.Tests.{leb, if◌then◌else◌}
use soro_fuzz.Base.Text.{is_whitespace}

-- The number that the digits stand for, after those in `acc`; `none` if one is no ASCII digit.
unfoldable pub digits_value : ℕ → String → Option ℕ
digits_value acc String.[] = some acc
digits_value acc (String.◌∷◌ c s) =
    let rest = digits_value (10 * acc + (code c - b'0')) s in
    if leb b'0' (code c) && leb (code c) b'9' then rest else none

-- One digit at least.
unfoldable pub digits : String → Option ℕ
unfolding digits_value
digits String.[] = none
digits (String.◌∷◌ c s) = digits_value 0 (String.◌∷◌ c s)

unfoldable pub trim_start : String → String
unfolding is_whitespace
trim_start String.[] = String.[]
trim_start (String.◌∷◌ c s) =
    let rest = trim_start s in if is_whitespace (code c) then rest else String.◌∷◌ c s

abbrev pub is_empty : String → Bool
is_empty String.[] = true
is_empty (String.◌∷◌ c s) = false

unfoldable pub trim_end : String → String
unfolding is_whitespace
trim_end String.[] = String.[]
trim_end (String.◌∷◌ c s) =
    let rest = trim_end s in
    if is_empty rest && is_whitespace (code c) then String.[] else String.◌∷◌ c rest

unfoldable pub trim : String → String
unfolding trim_start trim_end
trim s = trim_end (trim_start s)

-- The length of a character in UTF-8.
unfoldable pub char_bytes : ℕ → ℕ
char_bytes c =
    if leb 0x80 c then (if leb 0x800 c then (if leb 0x10000 c then 4 else 3) else 2) else 1

-- `str::len`
unfoldable pub byte_length : String → ℕ
unfolding char_bytes
byte_length String.[] = 0
byte_length (String.◌∷◌ c s) = char_bytes (code c) + byte_length s

trim_start_bytes : (s : String) → byte_length (trim_start s) ≤ byte_length s
unfolding byte_length trim_start
trim_start_bytes String.[] = omega arith
trim_start_bytes (String.◌∷◌ c s) = ground (arith, trim_start_bytes s)

trim_end_bytes : (s : String) → byte_length (trim_end s) ≤ byte_length s
unfolding byte_length trim_end
trim_end_bytes String.[] = omega arith
trim_end_bytes (String.◌∷◌ c s) = ground (arith, trim_end_bytes s)

pub trim_bytes : (s : String) → byte_length (trim s) ≤ byte_length s
unfolding trim
trim_bytes s = omega (arith, trim_end_bytes (trim_start s), trim_start_bytes s)
