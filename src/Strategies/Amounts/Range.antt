-- ===== src/Strategies/Amounts/Range.antt =====
-- The range of what `BoundedI128::arbitrary` of crates/strategies/src/amounts.rs generates.
use soro_fuzz.Base.{◌≡◌, true, false, some, Bool-cases, Option-cases, inl, inr, arith}
use soro_fuzz.Int.{
  ℤ, pos, ◌+ℤ◌, ◌≤ℤ◌, in_range, in_range_intro, i128_min, i128_max, beq_ℤ, clamp, saturating_add,
  int_laws,
}
use soro_fuzz.Strategies.Source.{Source}
use soro_fuzz.Strategies.Amounts.{BoundedI128, edge, arbitrary}

edge_bounds :
    (lo hi choice : ℤ)
    → i128_min ≤ℤ lo
    → hi ≤ℤ i128_max
    → lo +ℤ pos 1 ≤ℤ hi
    → (lo ≤ℤ edge lo hi choice) × (edge lo hi choice ≤ℤ hi)
edge_bounds lo hi choice low high room = elim (Bool-cases (beq_ℤ choice (pos 0))) [
  | inl zeroth ↦ rw zeroth (omega int_laws, omega int_laws)
  | inr c0 ↦ rw c0 (elim (Bool-cases (beq_ℤ choice (pos 1))) [
    | inl first ↦ rw first (omega int_laws, omega int_laws)
    | inr c1 ↦ rw c1 (elim (Bool-cases (beq_ℤ choice (pos 2))) [
      | inl second ↦ rw second (grind int_laws, grind int_laws)
      | inr c2 ↦ rw c2 (elim (Bool-cases (beq_ℤ choice (pos 3))) [
        | inl third ↦ rw third (grind int_laws, grind int_laws)
        | inr c3 ↦ rw c3 (grind int_laws, grind int_laws)
      ])
    ])
  ])
]

clamp_same : (lo hi z : ℤ) → lo ≤ℤ z → z ≤ℤ hi → clamp lo hi z ≡ z
clamp_same lo hi z low high = ground arith

-- If the range has at least two values, every amount that is generated lies in it.
pub arbitrary-in_range :
    (source : Source) (lo hi : ℤ) (d : source.Data) (b : BoundedI128 lo hi) (d' : source.Data)
    → i128_min ≤ℤ lo
    → hi ≤ℤ i128_max
    → lo +ℤ pos 1 ≤ℤ hi
    → arbitrary source lo hi d ≡ some (b, d')
    → in_range lo hi b.value ≡ true
unfolding arbitrary
arbitrary-in_range source lo hi d b d' low high room h = elim (Option-cases (source.ratio 1 4 d)) [
  | inl out ↦ ground (arith, out, h)
  | inr ((at_edge, d1), got) ↦ elim (Bool-cases at_edge) [
    | inl yes_ ↦ elim (Option-cases (source.int_in_range (pos 0) (pos 4) d1)) [
      | inl out ↦ ground (arith, got, yes_, out, h)
      | inr ((choice, d2), drawn) ↦
          let same : edge lo hi choice ≡ b.value = ground (arith, got, yes_, drawn, h) in
          let (above, below) = edge_bounds lo hi choice low high room in
          rw (← same) (in_range_intro lo hi (edge lo hi choice) above below)
    ]
    | inr no_ ↦ elim (Option-cases (source.int_in_range lo hi d1)) [
      | inl out ↦ ground (arith, got, no_, out, h)
      | inr ((v, d2), drawn) ↦
          let same : v ≡ b.value = ground (arith, got, no_, drawn, h) in
          let (above, below) = source.int_in_range_bounds lo hi d1 v d2 (omega int_laws) drawn in
          rw (← same) (in_range_intro lo hi v above below)
    ]
  ]
]

-- In a range of one value that is below the largest `i128`, the choice of an edge and of the fourth
-- of the edges generates the value one above the range.
pub arbitrary_singleton_escapes :
    (source : Source) (lo : ℤ) (d d1 d2 : source.Data)
    → i128_min ≤ℤ lo
    → lo +ℤ pos 1 ≤ℤ i128_max
    → source.ratio 1 4 d ≡ some (true, d1)
    → source.int_in_range (pos 0) (pos 4) d1 ≡ some (pos 3, d2)
    → (arbitrary source lo lo d ≡ some (record { value = lo +ℤ pos 1 }, d2))
      × (in_range lo lo (lo +ℤ pos 1) ≡ false)
unfolding arbitrary
arbitrary_singleton_escapes source lo d d1 d2 low high edge_ fourth =
    let sat : saturating_add i128_min i128_max lo (pos 1) ≡ lo +ℤ pos 1 =
      clamp_same i128_min i128_max (lo +ℤ pos 1) (omega int_laws) high in
    let value : edge lo lo (pos 3) ≡ lo +ℤ pos 1 = sat in
    (ground (arith, edge_, fourth, value), grind int_laws)
