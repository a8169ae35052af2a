-- ===== src/Tests/Generated.antt =====
-- The strategies' theorems on a source that is a list of numbers.
use soro_fuzz.Base.{
  ℕ, ◌≤◌, ◌≡◌, refl, Bool, true, false, Option, none, some, List, [], ◌∷◌, length, nat_eq, nat_beq,
  if◌then◌else◌, Bool-cases, inl, inr, arith,
}
use soro_fuzz.Int.{ℤ, pos, ◌+ℤ◌, ◌≤ℤ◌, in_range, in_range_bounds, i128_max}
use soro_fuzz.Strategies.Source.{Source}
use soro_fuzz.Strategies.Amounts
use soro_fuzz.Strategies.Amounts.{BoundedI128}
use soro_fuzz.Strategies.Amounts.Range.{arbitrary-in_range, arbitrary_singleton_escapes}
use soro_fuzz.Strategies.Entries
use soro_fuzz.Strategies.Entries.{BoundedEntries, max_map_entries}
use soro_fuzz.Strategies.Entries.Maps.{MapSdk, to_map, last_value, to_map_last}
use soro_fuzz.Base.Dict.{lookup, insert, lookup-insert}

abbrev next_number : List ℕ → Option (ℕ × List ℕ)
next_number [] = none
next_number (n ∷ u) = some (n, u)

abbrev next_ratio : List ℕ → Option (Bool × List ℕ)
next_ratio [] = none
next_ratio (n ∷ u) = some (nat_beq n 0, u)

abbrev next_in_range : ℤ → ℤ → List ℕ → Option (ℤ × List ℕ)
next_in_range lo hi [] = none
next_in_range lo hi (n ∷ u) = if in_range lo hi (pos n) then some (pos n, u) else none

next_bounds :
    (lo hi : ℤ) (u : List ℕ) (z : ℤ) (u' : List ℕ)
    → lo ≤ℤ hi
    → next_in_range lo hi u ≡ some (z, u')
    → (lo ≤ℤ z) × (z ≤ℤ hi)
next_bounds lo hi [] z u' le h = ground arith
next_bounds lo hi (n ∷ u) z u' le h = elim (Bool-cases (in_range lo hi (pos n))) [
  | inl inside ↦
      let same : pos n ≡ z = ground (arith, inside, h) in
      rw (← same) (in_range_bounds lo hi (pos n) inside)
  | inr outside ↦ ground (arith, outside, h)
]

abbrev numbers : Source
numbers = record {
  Data = List ℕ;
  ratio = λ a b u. next_ratio u;
  int_in_range = next_in_range;
  u32 = next_number;
  fill_buffer = λ n u. some (u, []);
  int_in_range_bounds = next_bounds;
}

abbrev four : BoundedI128 (pos 0) (pos 5)
four = record { value = pos 4 }

draws_four : Amounts.arbitrary numbers (pos 0) (pos 5) (1 ∷ 4 ∷ []) ≡ some (four, [])
unfolding Amounts.arbitrary
draws_four = refl

room : pos 0 +ℤ pos 1 ≤ℤ pos 5
unfolding ◌+ℤ◌
room = omega arith

room_above : pos 7 +ℤ pos 1 ≤ℤ i128_max
unfolding ◌+ℤ◌
room_above = omega arith

arbitrary-in_range_example : in_range (pos 0) (pos 5) (pos 4) ≡ true
arbitrary-in_range_example =
    arbitrary-in_range numbers (pos 0) (pos 5) (1 ∷ 4 ∷ []) four [] (omega arith) (omega arith) room
      draws_four

arbitrary_singleton_escapes_example :
    (Amounts.arbitrary numbers (pos 7) (pos 7) (0 ∷ 3 ∷ [])
      ≡ some (record { value = pos 7 +ℤ pos 1 }, []))
    × (in_range (pos 7) (pos 7) (pos 7 +ℤ pos 1) ≡ false)
arbitrary_singleton_escapes_example =
    arbitrary_singleton_escapes numbers (pos 7) (0 ∷ 3 ∷ []) (3 ∷ []) [] (omega arith) room_above
      refl refl

abbrev one_entry : BoundedEntries ℕ ℕ
one_entry = record { entries = (5, 6) ∷ [] }

draws_entry :
    Entries.arbitrary numbers next_number next_number (1 ∷ 5 ∷ 6 ∷ []) ≡ some (one_entry, [])
unfolding Entries.arbitrary Entries.draw
draws_entry = refl

abbrev pairs : MapSdk ℕ ℕ ℕ
unfolding lookup insert
pairs = record {
  Map = List (ℕ × ℕ);
  new = λ env. [];
  set = insert;
  get = lookup;
  get-new = λ env k. refl;
  get-set = λ k j v m. lookup-insert k j v m;
}

to_map_last_example :
    (pairs.get 5 (to_map pairs one_entry 0) ≡ last_value 5 one_entry.entries none)
    × (length one_entry.entries ≤ max_map_entries)
to_map_last_example =
    to_map_last pairs numbers next_number next_number (1 ∷ 5 ∷ 6 ∷ []) one_entry [] draws_entry 0 5
