-- ===== src/Examples/Token/Ledger.antt =====
-- The balances of the token's shadow model, examples/token/src/harness.rs: entries for addresses,
-- in the order in which they were first written.
use soro_fuzz.Base.{
  ◌≡◌, refl, ap, ◌∙◌, true, false, ◌||◌, some, List, [], ◌∷◌, map, Eq, ◌==◌, beq_refl, eq_of_beq,
  contains, if◌then◌else◌, arith, Bool-cases, inl, inr,
}
use soro_fuzz.Int.{ℤ, pos, ◌+ℤ◌, ◌≤ℤ◌, i128_min, i128_max, in_range, in_range_intro, int_laws}
use soro_fuzz.Core.Auth.Resolve.{IsDistinct}
use soro_fuzz.Invariants.{sum_from}
use soro_fuzz.Examples.Token.Harness.{balance_of, balance_holders, write_balance}

module _ {Address : Type 0} where
  abbrev pub sum : List (Address × ℤ) → ℤ
  sum [] = pos 0
  sum ((a, b) ∷ l) = b +ℤ sum l

  abbrev pub AllNonneg : List (Address × ℤ) → Type 0
  AllNonneg [] = Unit
  AllNonneg ((a, b) ∷ l) = (pos 0 ≤ℤ b) × AllNonneg l

  sum_nonneg : (l : List (Address × ℤ)) → AllNonneg l → pos 0 ≤ℤ sum l
  sum_nonneg [] h = omega arith
  sum_nonneg ((x, b) ∷ l) h = omega (int_laws, sum_nonneg l h.1)

module _ {Address : Type 0} ⦃e : Eq Address⦄ where
  pub balance_of-write :
      (who : Address) (v : ℤ) (l : List (Address × ℤ)) (a : Address)
      → balance_of (write_balance who v l) a ≡ (if who == a then v else balance_of l a)
  unfolding balance_of write_balance
  balance_of-write who v [] a = refl
  balance_of-write who v ((x, b) ∷ l) a = ground (
    arith,
    balance_of-write who v l a,
    eq_of_beq x who,
    eq_of_beq x a,
    eq_of_beq who a,
    beq_refl a,
  )

  -- A write changes the sum by what it changes the balance.
  pub sum-write :
      (who : Address) (v : ℤ) (l : List (Address × ℤ))
      → sum (write_balance who v l) +ℤ balance_of l who ≡ sum l +ℤ v
  unfolding balance_of write_balance
  sum-write who v [] = omega int_laws
  sum-write who v ((x, b) ∷ l) = grind (int_laws, sum-write who v l)

  pub write-AllNonneg :
      (who : Address) (v : ℤ) (l : List (Address × ℤ))
      → pos 0 ≤ℤ v
      → AllNonneg l
      → AllNonneg (write_balance who v l)
  unfolding write_balance
  write-AllNonneg who v [] p h = (p, tt)
  write-AllNonneg who v ((x, b) ∷ l) p h = ground (arith, write-AllNonneg who v l p h.1)

  -- Every balance is between zero and the sum.
  pub balance_of_bounds :
      (l : List (Address × ℤ)) (a : Address)
      → AllNonneg l
      → (pos 0 ≤ℤ balance_of l a) × (balance_of l a ≤ℤ sum l)
  unfolding balance_of
  balance_of_bounds [] a h = (omega arith, omega arith)
  balance_of_bounds ((x, b) ∷ l) a h = elim (Bool-cases (x == a)) [
    | inl same ↦ rw same (h.0, omega (int_laws, sum_nonneg l h.1))
    | inr other ↦ rw other (let (low, high) = balance_of_bounds l a h.1 in (low, omega int_laws))
  ]

  contains-write :
      (who : Address) (v : ℤ) (l : List (Address × ℤ)) (a : Address)
      → contains (balance_holders (write_balance who v l)) a
        ≡ (contains (balance_holders l) a || who == a)
  unfolding balance_holders write_balance
  contains-write who v [] a = ground arith
  contains-write who v ((x, b) ∷ l) a = ground (arith, contains-write who v l a, eq_of_beq x who)

  pub write-IsDistinct :
      (who : Address) (v : ℤ) (l : List (Address × ℤ))
      → IsDistinct (balance_holders l)
      → IsDistinct (balance_holders (write_balance who v l))
  unfolding balance_holders write_balance
  write-IsDistinct who v [] h = (refl, tt)
  write-IsDistinct who v ((x, b) ∷ l) h = elim (Bool-cases (x == who)) [
    | inl same ↦ rw same h
    | inr other ↦ rw other (
      ground (arith, h.0, contains-write who v l x, eq_of_beq who x, beq_refl x),
      write-IsDistinct who v l h.1,
    )
  ]

  head_held :
      (x : Address) (b : ℤ) (l : List (Address × ℤ))
      → contains (balance_holders ((x, b) ∷ l)) x ≡ true
  unfolding balance_holders
  head_held x b l = ground (arith, beq_refl x)

  head_balance : (x : Address) (b : ℤ) (l : List (Address × ℤ)) → balance_of ((x, b) ∷ l) x ≡ b
  unfolding balance_of
  head_balance x b l = rw (beq_refl x)

  tail_same :
      (all : List (Address × ℤ)) (x : Address) (b : ℤ) (l : List (Address × ℤ))
      → contains (balance_holders l) x ≡ false
      → ((a : Address)
          → contains (balance_holders ((x, b) ∷ l)) a ≡ true
          → balance_of all a ≡ balance_of ((x, b) ∷ l) a)
      → (a : Address) → contains (balance_holders l) a ≡ true
      → balance_of all a ≡ balance_of l a
  unfolding balance_holders balance_of
  tail_same all x b l absent same a held =
      ground (arith, same a (ground (arith, held)), eq_of_beq x a, held, absent)

  -- `sum` as the harness computes it over the holders, which never overflows on the way.
  sum_from_holders :
      (all l : List (Address × ℤ)) (acc : ℤ)
      → ((a : Address) → contains (balance_holders l) a ≡ true → balance_of all a ≡ balance_of l a)
      → IsDistinct (balance_holders l)
      → AllNonneg l
      → pos 0 ≤ℤ acc
      → acc +ℤ sum l ≤ℤ i128_max
      → sum_from acc (map (balance_of all) (balance_holders l)) ≡ some (acc +ℤ sum l)
  unfolding sum_from balance_holders
  sum_from_holders all [] acc same d h low high = ap some (omega int_laws)
  sum_from_holders all ((x, b) ∷ l) acc same d h low high =
      let here : balance_of all x ≡ b = same x (head_held x b l) ∙ head_balance x b l in
      let tail_nonneg = sum_nonneg l h.1 in
      let fits : in_range i128_min i128_max (acc +ℤ b) ≡ true =
        in_range_intro i128_min i128_max (acc +ℤ b) (omega int_laws) (omega int_laws) in
      rw (here, sum_from)
        (rw (fits, sum_from)
          (sum_from_holders all l (acc +ℤ b) (tail_same all x b l d.0 same) d.1 h.1 (omega int_laws)
              (omega int_laws)
            ∙ ap some (omega int_laws)))

  -- The check of the supply passes on entries that are non-negative and distinct.
  pub sum_from_entries :
      (l : List (Address × ℤ))
      → IsDistinct (balance_holders l)
      → AllNonneg l
      → sum l ≤ℤ i128_max
      → sum_from (pos 0) (map (balance_of l) (balance_holders l)) ≡ some (sum l)
  sum_from_entries l d h high =
      sum_from_holders l l (pos 0) (λ a _. refl) d h (omega arith) (omega int_laws)
      ∙ ap some (omega int_laws)
