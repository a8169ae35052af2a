-- ===== src/Invariants/Sums.antt =====
-- The sum of the balances in crates/invariants/src/supply_conservation.rs, against the sum of the
-- integers.
use soro_fuzz.Base.{
  ℕ, zero, suc, ◌≡◌, refl, ap, sym, ◌∙◌, true, Bool-cases, inl, inr, some, List, [], ◌∷◌, take,
  arith,
}
use soro_fuzz.Int.{ℤ, pos, ◌+ℤ◌, i128_min, i128_max, in_range, eq_of_parts, int_laws}
use soro_fuzz.Invariants.{sum_from}

-- The sum of the integers, which has no bounds.
abbrev pub total : List ℤ → ℤ
total [] = pos 0
total (x ∷ xs) = x +ℤ total xs

-- The sum of as many of the first integers as one likes is an `i128`.
abbrev pub IsBounded : ℤ → List ℤ → Type 0
IsBounded acc xs = (n : ℕ) → in_range i128_min i128_max (acc +ℤ total (take n xs)) ≡ true

assoc : (a b c : ℤ) → (a +ℤ b) +ℤ c ≡ a +ℤ (b +ℤ c)
assoc a b c = eq_of_parts _ _ (omega int_laws)

zero_right : (a : ℤ) → a +ℤ pos 0 ≡ a
zero_right a = eq_of_parts _ _ (omega int_laws)

zero_left : (a : ℤ) → pos 0 +ℤ a ≡ a
zero_left a = eq_of_parts _ _ (omega int_laws)

sum_from-IsBounded :
    (acc : ℤ) (xs : List ℤ) (v : ℤ)
    → in_range i128_min i128_max acc ≡ true
    → sum_from acc xs ≡ some v
    → IsBounded acc xs × (acc +ℤ total xs ≡ v)
unfolding sum_from
sum_from-IsBounded acc [] v h is = (
  λ n. ap (in_range i128_min i128_max) (ap (λ t. acc +ℤ t) (none_taken n) ∙ zero_right acc) ∙ h,
  zero_right acc ∙ ground (arith, is),
)
  where
    none_taken : (n : ℕ) → total (take n []) ≡ pos 0
    none_taken zero = refl
    none_taken (suc n) = refl
sum_from-IsBounded acc (x ∷ xs) v h is = elim (Bool-cases (in_range i128_min i128_max (acc +ℤ x))) [
  | inr out ↦ absurd (ground (arith, out, is))
  | inl fits ↦
      let (bounded, sums) = sum_from-IsBounded (acc +ℤ x) xs v fits (rw (fits, sum_from) at is) in
      (first bounded, sym (assoc acc x (total xs)) ∙ sums)
]
  where
    first : IsBounded (acc +ℤ x) xs → IsBounded acc (x ∷ xs)
    first b zero = ap (in_range i128_min i128_max) (zero_right acc) ∙ h
    first b (suc n) = ap (in_range i128_min i128_max) (sym (assoc acc x (total (take n xs)))) ∙ b n

pub sum_from-total :
    (acc : ℤ) (xs : List ℤ) → IsBounded acc xs → sum_from acc xs ≡ some (acc +ℤ total xs)
unfolding sum_from
sum_from-total acc [] h = ap some (sym (zero_right acc))
sum_from-total acc (x ∷ xs) h =
    let fits : in_range i128_min i128_max (acc +ℤ x) ≡ true =
      ap (in_range i128_min i128_max) (ap (λ t. acc +ℤ t) (sym (zero_right x))) ∙ h 1 in
    let later : IsBounded (acc +ℤ x) xs =
      λ n. ap (in_range i128_min i128_max) (assoc acc x (total (take n xs))) ∙ h (suc n) in
    rw (fits, sum_from) (sum_from-total (acc +ℤ x) xs later) ∙ ap some (assoc acc x (total xs))

pub sum_from_zero :
    (xs : List ℤ) (v : ℤ) → sum_from (pos 0) xs ≡ some v → IsBounded (pos 0) xs × (total xs ≡ v)
sum_from_zero xs v sums =
    let (bounded, is) = sum_from-IsBounded (pos 0) xs v refl sums in
    (bounded, sym (zero_left (total xs)) ∙ is)
