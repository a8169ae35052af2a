-- ===== src/Core/Auth/Resolve.antt =====
-- `AddressPool::generate`, `get` and `resolve` of crates/core/src/auth.rs, against a description of
-- the signers that an auth selection names.
use native.Mathlib.Nat.{mod-lt}
use mathlib.Core.List.{append-nil, append_assoc}
use soro_fuzz.Base.{
  ℕ, zero, suc, ◌%◌, ◌<◌, max, ◌≡◌, refl, ap, ◌∙◌, true, false, ◌||◌, none, some, inl, inr, List,
  [], ◌∷◌, ◌++◌, Eq, ◌==◌, beq_refl, eq_of_beq, contains, length, get_elem?_lt, get_elem?, nat_eq,
  ◌↔◌, if◌then◌else◌, arith, Bool-cases,
}
use soro_fuzz.Core.Auth.{
  AddressPool, AuthSelection, get, generate_all, generate, resolve_from, resolve,
}

abbrev pub IsNonempty : {Address : Type 0} → AddressPool Address → Type 0
IsNonempty pool = 0 < length pool.addresses

module _ {Address Env : Type 0} (generate_one : Env → Address × Env) where
  pub length-generate_all : (n : ℕ) (env : Env) → length (generate_all generate_one n env).0 ≡ n
  unfolding generate_all
  length-generate_all zero env = refl
  length-generate_all (suc n) env = ap suc (length-generate_all n (generate_one env).1)

  -- A generated pool has the size asked for, and at least one address.
  pub length-generate :
      (size : ℕ) (env : Env) → length (generate generate_one size env).0.addresses ≡ max size 1
  unfolding generate
  length-generate size env = length-generate_all (max size 1) env

  pub generate-IsNonempty : (size : ℕ) (env : Env) → IsNonempty (generate generate_one size env).0
  generate-IsNonempty size env = omega (arith, length-generate size env)

-- In a pool that is not empty every index names an address.
pub get_total :
    {Address : Type 0} (pool : AddressPool Address) (i : ℕ)
    → IsNonempty pool
    → (a : Address) × (get pool i ≡ some a)
unfolding get
get_total pool i h =
    let (a, found) = get_elem?_lt pool.addresses (i % length pool.addresses) (mod-lt i h) in
    (a, ground (arith, found))

-- The address that `get` gives stands at the index modulo the size.
get_modulo :
    {Address : Type 0} (pool : AddressPool Address) (i : ℕ) (a : Address)
    → IsNonempty pool
    → get pool i ≡ some a
    → get_elem? pool.addresses (i % length pool.addresses) ≡ some a
unfolding get
get_modulo pool i a h found = ground (arith, found)

module _ {Address : Type 0} ⦃e : Eq Address⦄ where
  -- The addresses that the indices name, with repetitions.
  pub selected : AddressPool Address → List ℕ → List Address
  selected pool [] = []
  selected pool (i ∷ is) =
      let rest = selected pool is in elim (get pool i) [ none ↦ rest | some a ↦ a ∷ rest ]

  pub without : List Address → List Address → List Address
  without out [] = []
  without out (x ∷ xs) = let rest = without out xs in if contains out x then rest else x ∷ rest

  -- Each address once, where it first appears.
  pub firsts : List Address → List Address
  firsts [] = []
  firsts (x ∷ xs) = x ∷ without (x ∷ []) (firsts xs)

  abbrev pub IsDistinct : List Address → Type 0
  IsDistinct [] = Unit
  IsDistinct (x ∷ xs) = (contains xs x ≡ false) × IsDistinct xs

  contains-snoc :
      (out : List Address) (a x : Address)
      → contains (out ++ (a ∷ [])) x ≡ (contains out x || a == x)
  contains-snoc [] a x = ground arith
  contains-snoc (y ∷ out) a x = ground (arith, contains-snoc out a x)

  without-snoc :
      (out : List Address) (a : Address) (xs : List Address)
      → without (out ++ (a ∷ [])) xs ≡ without out (without (a ∷ []) xs)
  unfolding without
  without-snoc out a [] = refl
  without-snoc out a (x ∷ xs) = ground (arith, contains-snoc out a x, without-snoc out a xs)

  without_known :
      (out : List Address) (a : Address) (xs : List Address)
      → contains out a ≡ true
      → without out (without (a ∷ []) xs) ≡ without out xs
  unfolding without
  without_known out a [] h = refl
  without_known out a (x ∷ xs) h = ground (arith, eq_of_beq a x, without_known out a xs h)

  without-nil : (xs : List Address) → without [] xs ≡ xs
  unfolding without
  without-nil [] = refl
  without-nil (x ∷ xs) = ap (λ ys. x ∷ ys) (without-nil xs)

  resolve_from_lem :
      (pool : AddressPool Address) (is : List ℕ) (out : List Address)
      → IsNonempty pool
      → resolve_from pool is out ≡ some (out ++ without out (firsts (selected pool is)))
  unfolding resolve_from selected firsts without
  resolve_from_lem pool [] out h = rw append-nil
  resolve_from_lem pool (i ∷ is) out h =
      let (a, found) = get_total pool i h in
      rw (found, resolve_from, selected)
        (elim (Bool-cases (contains out a)) [
          | inl known ↦
              rw (known, without_known out a (firsts (selected pool is)) known)
                (resolve_from_lem pool is out h)
          | inr fresh ↦ rw fresh (
              resolve_from_lem pool is (out ++ (a ∷ [])) h
              ∙ rw (without-snoc out a (firsts (selected pool is)), append_assoc))
        ])

  -- On a pool that is not empty, `resolve` gives the addresses that the selection names, each once,
  -- in the order in which they first appear.
  pub resolve-eq-firsts :
      (pool : AddressPool Address) (selection : AuthSelection)
      → IsNonempty pool
      → resolve pool selection ≡ some (firsts (selected pool selection.indices))
  unfolding resolve
  resolve-eq-firsts pool selection h =
      rw (← without-nil (firsts (selected pool selection.indices)))
        (resolve_from_lem pool selection.indices [] h)

  contains-without :
      (out : List Address) (xs : List Address) (a : Address)
      → contains (without out xs) a ≡ true
      → contains xs a ≡ true
  unfolding without
  contains-without out [] a h = h
  contains-without out (x ∷ xs) a h = ground (arith, contains-without out xs a)

  contains-without_out :
      (b : Address) (xs : List Address) → contains (without (b ∷ []) xs) b ≡ false
  unfolding without
  contains-without_out b [] = refl
  contains-without_out b (x ∷ xs) =
      ground (arith, eq_of_beq x b, beq_refl b, contains-without_out b xs)

  contains-without_ne :
      (b : Address) (xs : List Address) (a : Address)
      → (b == a) ≡ false
      → contains (without (b ∷ []) xs) a ≡ contains xs a
  unfolding without
  contains-without_ne b [] a h = refl
  contains-without_ne b (x ∷ xs) a h =
      ground (arith, eq_of_beq b x, contains-without_ne b xs a h, eq_of_beq x a)

  without-IsDistinct :
      (out : List Address) (xs : List Address) → IsDistinct xs → IsDistinct (without out xs)
  unfolding without
  without-IsDistinct out [] h = tt
  without-IsDistinct out (x ∷ xs) h =
      ground (arith, without-IsDistinct out xs h.1, contains-without out xs x)

  firsts-IsDistinct : (xs : List Address) → IsDistinct (firsts xs)
  unfolding firsts
  firsts-IsDistinct [] = tt
  firsts-IsDistinct (x ∷ xs) = (
    contains-without_out x (firsts xs),
    without-IsDistinct (x ∷ []) (firsts xs) (firsts-IsDistinct xs),
  )

  contains-firsts : (xs : List Address) (a : Address) → contains (firsts xs) a ≡ contains xs a
  unfolding firsts
  contains-firsts [] a = refl
  contains-firsts (x ∷ xs) a =
      ground (arith, contains-without_ne x (firsts xs) a, contains-firsts xs a)

  -- An index of the selection that names the address, taken modulo the size of the pool.
  abbrev pub IsNamed : AddressPool Address → List ℕ → Address → Type 0
  IsNamed pool is a =
      (i : ℕ) × (contains is i ≡ true)
      × (get_elem? pool.addresses (i % length pool.addresses) ≡ some a)

  contains-selected :
      (pool : AddressPool Address) (is : List ℕ) (a : Address)
      → IsNonempty pool
      → (contains (selected pool is) a ≡ true) ↔ IsNamed pool is a
  unfolding selected
  contains-selected pool [] a h =
      (λ k. absurd (ground (arith, k)), λ (i, k, _). absurd (ground (arith, k)))
  contains-selected pool (j ∷ is) a h =
      let (b, found) = get_total pool j h in
      let at = get_modulo pool j b h found in
      let (to, from) = contains-selected pool is a h in
      (
        λ k. elim (Bool-cases (b == a)) [
          | inl same ↦ (j, ground (arith, beq_refl j), at ∙ ap some (eq_of_beq b a same))
          | inr other ↦
              let (i, there, named) = to (ground (arith, found, k, other)) in
              (i, ground (arith, there), named)
        ],
        λ (i, there, named). elim (Bool-cases (j == i)) [
          | inl same ↦
              let index : get_elem? pool.addresses (i % length pool.addresses) ≡ some b =
                rw (← eq_of_beq j i same) at in
              let who : b ≡ a = ground (arith, index, named) in
              ground (arith, found, (e.beq_iff b a).1 who)
          | inr other ↦
              let later = from (i, ground (arith, there, other), named) in
              ground (arith, found, later)
        ],
      )

  -- On a pool that is not empty, the signers of a step are pairwise different, and are exactly the
  -- addresses that stand in the pool at an index of the selection modulo the pool's size.
  pub resolve_signers :
      (pool : AddressPool Address) (selection : AuthSelection)
      → IsNonempty pool
      → (out : List Address) × (resolve pool selection ≡ some out)
        × IsDistinct out
        × ((a : Address) → (contains out a ≡ true) ↔ IsNamed pool selection.indices a)
  resolve_signers pool selection h = (
    firsts (selected pool selection.indices),
    resolve-eq-firsts pool selection h,
    firsts-IsDistinct (selected pool selection.indices),
    λ a.
        rw (contains-firsts (selected pool selection.indices) a)
          (contains-selected pool selection.indices a h),
  )
