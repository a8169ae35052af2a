-- ===== src/Strategies/Entries.antt =====
-- crates/strategies/src/map.rs: entries of a map, of a bounded number.
pub mod Maps
use soro_fuzz.Base.{
  ℕ, zero, suc, ◌≤◌, ◌≡◌, Option, some, Option-cases, inl, inr, List, [], ◌∷◌, length, arith,
}
use soro_fuzz.Int.{ℤ, pos, negsuc, pos_part, ◌≤ℤ◌}
use soro_fuzz.Strategies.Source.{Source, ◌>>=◌}

abbrev pub max_map_entries : ℕ
max_map_entries = 8

pub record BoundedEntries (K V : Type 0) : Type 0 where
  pub entries : List (K × V)

pos_part_le : (z : ℤ) (n : ℕ) → pos 0 ≤ℤ z → z ≤ℤ pos n → pos_part z ≤ n
pos_part_le (pos m) n low high = omega arith
pos_part_le (negsuc m) n low high = omega arith

module _ {K V : Type 0} (source : Source) (key : source.Data → Option (K × source.Data))
    (value : source.Data → Option (V × source.Data)) where
  -- The loop of `arbitrary`, for the number of entries that is left.
  unfoldable pub draw : ℕ → source.Data → Option (List (K × V) × source.Data)
  draw zero u = some ([], u)
  draw (suc n) u = do
    (k, u1) ← key u
    (v, u2) ← value u1
    (rest, u3) ← draw n u2
    some ((k, v) ∷ rest, u3)

  -- `Arbitrary::arbitrary`, with the `Arbitrary` instances of the keys and the values.
  unfoldable pub arbitrary : source.Data → Option (BoundedEntries K V × source.Data)
  unfolding draw
  arbitrary u = do
    (len, u') ← source.int_in_range (pos 0) (pos max_map_entries) u
    (entries, u'') ← draw (pos_part len) u'
    some (record { entries = entries }, u'')

  draw-length :
      (n : ℕ) (d : source.Data) (l : List (K × V)) (d' : source.Data)
      → draw n d ≡ some (l, d')
      → length l ≡ n
  unfolding draw
  draw-length zero d l d' h = ground arith
  draw-length (suc n) d l d' h = elim (Option-cases (key d)) [
    | inl out ↦ ground (arith, out, h)
    | inr ((k, d1), got) ↦ elim (Option-cases (value d1)) [
      | inl out ↦ ground (arith, got, out, h)
      | inr ((v, d2), found) ↦ elim (Option-cases (draw n d2)) [
        | inl out ↦ ground (arith, got, found, out, h)
        | inr ((rest, d3), drawn) ↦
            let ih = draw-length n d2 rest d3 drawn in ground (arith, got, found, drawn, h, ih)
      ]
    ]
  ]

  -- Whatever the bytes are, no more than `MAX_MAP_ENTRIES` entries are drawn.
  pub arbitrary_capped :
      (d : source.Data) (b : BoundedEntries K V) (d' : source.Data)
      → arbitrary d ≡ some (b, d')
      → length b.entries ≤ max_map_entries
  unfolding arbitrary
  arbitrary_capped d b d' h =
      elim (Option-cases (source.int_in_range (pos 0) (pos max_map_entries) d)) [
        | inl out ↦ ground (arith, out, h)
        | inr ((len, d1), got) ↦ elim (Option-cases (draw (pos_part len) d1)) [
          | inl out ↦ ground (arith, got, out, h)
          | inr ((l, d2), drawn) ↦
              let (low, high) =
                source.int_in_range_bounds (pos 0) (pos max_map_entries) d len d1 (omega arith)
                  got in
              let bound = pos_part_le len max_map_entries low high in
              let size = draw-length (pos_part len) d1 l d2 drawn in
              let same : l ≡ b.entries = ground (arith, got, drawn, h) in
              let le : length l ≤ max_map_entries = omega arith in rw (← same) le
        ]
      ]
