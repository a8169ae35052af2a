-- ===== src/Server/Runner/Output.antt =====
-- crates/server/src/runner/output.rs: what is read from the output of a fuzzing process. The
-- library `regex` is a parameter: the groups of the first match of a pattern, and of all matches.
use soro_fuzz.Base.{
  ℕ, Bool, false, ◌&&◌, not, Option, none, some, List, [], ◌∷◌, String, leb, nat_beq, filter_map,
  unwrap_or, if◌then◌else◌,
}
use Prim.Native.Char.{code}
use soro_fuzz.Base.Parse.{digits, trim, byte_length}
use soro_fuzz.Int.{ℤ, pos, in_range, ltb_ℤ, i64_min, i64_max, i32_min, i32_max, beq_ℤ, sub_ℕ}

-- `group 1` is the text of the first group.
pub record Regex : Type 0 where
  pub captures : String → String → Option (ℕ → String)
  pub captures_iter : String → String → List (ℕ → String)

abbrev pub violation_re : String
violation_re = "invariant `([^`]+)` violated at step (\\d+): (.+)"

abbrev pub done_runs_re : String
done_runs_re = "Done (\\d+) runs? in"

abbrev pub counter_re : String
counter_re = "(?m)^#(\\d+)\\b"

abbrev pub artifact_re : String
artifact_re = "Test unit written to (\\S+)"

pub record ParsedViolation : Type 0 where
  pub invariant : String
  pub step_index : ℤ  -- i32
  pub message : String

pub record ParsedRun : Type 0 where
  pub iterations : ℤ  -- i64
  pub crashed : Bool
  pub artifact_path : Option String
  pub finding : Option ParsedViolation

-- `str::parse` for a signed type with the bounds: a sign and digits.
unfoldable pub parse_int : ℤ → ℤ → String → Option ℤ
unfolding digits
parse_int lo hi String.[] = none
parse_int lo hi (String.◌∷◌ c s) =
    let value : Option ℤ =
      if nat_beq (code c) b'-'
      then elim (digits s) [ none ↦ none | some n ↦ some (sub_ℕ 0 n) ]
      else if nat_beq (code c) b'+'
      then elim (digits s) [ none ↦ none | some n ↦ some (pos n) ]
      else elim (digits (String.◌∷◌ c s)) [ none ↦ none | some n ↦ some (pos n) ] in
    elim value [ none ↦ none | some z ↦ if in_range lo hi z then some z else none ]

-- The last characters of `text`, from the first boundary of a character at which no more than
-- `max_chars` bytes are left.
unfoldable pub last_bytes : ℕ → String → String
unfolding byte_length
last_bytes max_chars String.[] = String.[]
last_bytes max_chars (String.◌∷◌ c s) =
    let rest = last_bytes max_chars s in
    if leb (byte_length (String.◌∷◌ c s)) max_chars then String.◌∷◌ c s else rest

unfoldable pub tail : String → ℕ → String
unfolding last_bytes trim byte_length
tail text max_chars =
    if leb (byte_length text) max_chars then trim text else trim (last_bytes max_chars text)

-- `max`, over the numbers that were read.
unfoldable pub largest : List ℤ → Option ℤ
largest [] = none
largest (z ∷ zs) = elim (largest zs) [
  | none ↦ some z
  | some y ↦ if ltb_ℤ y z then some z else some y
]

module _ (regex : Regex) where
  unfoldable pub count_iterations : String → ℤ
  unfolding largest parse_int
  count_iterations text =
      unwrap_or
        (largest
          (filter_map (λ c. parse_int i64_min i64_max (c 1)) (regex.captures_iter counter_re text)))
        (pos 0)

  unfoldable pub parse_iterations : String → ℤ
  unfolding count_iterations parse_int
  parse_iterations text = elim (regex.captures done_runs_re text) [
    | none ↦ count_iterations text
    | some caps ↦ elim (parse_int i64_min i64_max (caps 1)) [
      | none ↦ count_iterations text
      | some n ↦ n
    ]
  ]

  unfoldable pub parse_artifact_path : String → Option String
  parse_artifact_path text = elim (regex.captures artifact_re text) [
    | none ↦ none
    | some caps ↦ some (caps 1)
  ]

  unfoldable pub parse_violation : String → Option ParsedViolation
  unfolding parse_int trim
  parse_violation text = elim (regex.captures violation_re text) [
    | none ↦ none
    | some caps ↦ elim (parse_int i32_min i32_max (caps 2)) [
      | none ↦ none
      | some step_index ↦
          some (record { invariant = caps 1; step_index = step_index; message = trim (caps 3) })
    ]
  ]

  -- What stands for a crash with no text of a violation.
  unfoldable pub undeclared_panic : String → ParsedViolation
  unfolding tail
  undeclared_panic text = record {
    invariant = "undeclared_panic";
    step_index = pos 0;
    message = tail text 2000;
  }

  -- `!timed_out && exit_code.is_some_and(|code| code != 0)`
  abbrev pub has_crashed : Option ℤ → Bool → Bool
  has_crashed none timed_out = false
  has_crashed (some exit) timed_out = not timed_out && not (beq_ℤ exit (pos 0))

  unfoldable pub parse : String → Option ℤ → Bool → ParsedRun
  unfolding parse_iterations parse_artifact_path parse_violation undeclared_panic
  parse text exit_code timed_out =
      let crashed = has_crashed exit_code timed_out in
      record {
        iterations = parse_iterations text;
        crashed = crashed;
        artifact_path = parse_artifact_path text;
        finding =
            if crashed
            then some (unwrap_or (parse_violation text) (undeclared_panic text))
            else none;
      }
