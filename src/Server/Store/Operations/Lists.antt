-- ===== src/Server/Store/Operations/Lists.antt =====
-- Which rows the statements of crates/server/src/store/postgres.rs select and leave.
use soro_fuzz.Base.{
  ℕ, ◌≡◌, refl, ap, sym, ◌∙◌, ◌≤◌, Bool, true, false, none, some, List, [], ◌∷◌, ◌++◌, ◌⊎◌, inl,
  inr, Bool-cases, Option-cases, if◌then◌else◌, arith, ltb,
}
use soro_fuzz.Server.Store.Tables.{select_where, first_row, update_where, earliest}

module _ {A : Type 0} where
  abbrev pub IsIn : A → List A → Type 0
  IsIn x [] = ⊥
  IsIn x (y ∷ l) = (x ≡ y) ⊎ IsIn x l

  pub IsIn-append_split : (x : A) (l m : List A) → IsIn x (l ++ m) → IsIn x l ⊎ IsIn x m
  IsIn-append_split x [] m h = inr h
  IsIn-append_split x (y ∷ l) m h = elim h [
    | inl here ↦ inl (inl here)
    | inr later ↦ elim (IsIn-append_split x l m later) [ inl p ↦ inl (inr p) | inr q ↦ inr q ]
  ]

  pub IsIn-append_left : (x : A) (l m : List A) → IsIn x l → IsIn x (l ++ m)
  IsIn-append_left x [] m h = absurd h
  IsIn-append_left x (y ∷ l) m h = elim h [
    | inl here ↦ inl here
    | inr later ↦ inr (IsIn-append_left x l m later)
  ]

  pub IsIn-append_right : (x : A) (l m : List A) → IsIn x m → IsIn x (l ++ m)
  IsIn-append_right x [] m h = h
  IsIn-append_right x (y ∷ l) m h = inr (IsIn-append_right x l m h)

  module _ (p : A → Bool) where
    -- A row that an update leaves is one that was there, changed if the condition held.
    pub IsIn-update_where :
        (f : A → A) (x : A) (l : List A)
        → IsIn x (update_where p f l)
        → (y : A) × IsIn y l × (x ≡ (if p y then f y else y))
    unfolding update_where
    IsIn-update_where f x [] h = absurd h
    IsIn-update_where f x (y ∷ l) h = elim h [
      | inl here ↦ (y, inl refl, here)
      | inr later ↦ let (z, q, same) = IsIn-update_where f x l later in (z, inr q, same)
    ]

    pub IsIn-updated :
        (f : A → A) (y : A) (l : List A)
        → IsIn y l
        → IsIn (if p y then f y else y) (update_where p f l)
    unfolding update_where
    IsIn-updated f y [] h = absurd h
    IsIn-updated f y (x ∷ l) h = elim h [
      | inl here ↦ inl (ap (λ z. if p z then f z else z) here)
      | inr later ↦ inr (IsIn-updated f y l later)
    ]

    pub IsIn-select_where :
        (x : A) (l : List A) → IsIn x (select_where p l) → IsIn x l × (p x ≡ true)
    unfolding select_where
    IsIn-select_where x [] h = absurd h
    IsIn-select_where x (y ∷ l) h = elim (Bool-cases (p y)) [
      | inl yes_ ↦ elim (rw yes_ at h) [
        | inl here ↦ (inl here, ap p here ∙ yes_)
        | inr later ↦ let (q, r) = IsIn-select_where x l later in (inr q, r)
      ]
      | inr no_ ↦ let (q, r) = IsIn-select_where x l (rw no_ at h) in (inr q, r)
    ]

    pub IsIn-selected : (x : A) (l : List A) → IsIn x l → p x ≡ true → IsIn x (select_where p l)
    unfolding select_where
    IsIn-selected x [] h yes_ = absurd h
    IsIn-selected x (y ∷ l) h yes_ = elim h [
      | inl here ↦ let held : p y ≡ true = ap p (sym here) ∙ yes_ in rw held (inl here)
      | inr later ↦ elim (Bool-cases (p y)) [
        | inl held ↦ rw held (inr (IsIn-selected x l later yes_))
        | inr no_ ↦ rw no_ (IsIn-selected x l later yes_)
      ]
    ]

    pub first_selected :
        (x : A) (l : List A) → first_row (select_where p l) ≡ some x → IsIn x l × (p x ≡ true)
    unfolding select_where
    first_selected x [] h = cc
    first_selected x (y ∷ l) h = elim (Bool-cases (p y)) [
      | inl yes_ ↦
          let same : y ≡ x = ground (arith, yes_, h) in (inl (sym same), ap p (sym same) ∙ yes_)
      | inr no_ ↦ let (q, r) = first_selected x l (rw no_ at h) in (inr q, r)
    ]

    pub none_selected :
        (x : A) (l : List A) → first_row (select_where p l) ≡ none → IsIn x l → p x ≡ false
    unfolding select_where
    none_selected x [] h q = absurd q
    none_selected x (y ∷ l) h q = elim (Bool-cases (p y)) [
      | inl yes_ ↦ ground (arith, yes_, h)
      | inr no_ ↦ elim q [
        | inl here ↦ ap p here ∙ no_
        | inr later ↦ none_selected x l (rw no_ at h) later
      ]
    ]

  pub IsIn-earliest : (time : A → ℕ) (x : A) (l : List A) → earliest time l ≡ some x → IsIn x l
  unfolding earliest
  IsIn-earliest time x [] h = cc
  IsIn-earliest time x (y ∷ l) h = elim (Option-cases (earliest time l)) [
    | inl empty ↦ inl (ground (arith, empty, h))
    | inr (z, found) ↦ elim (Bool-cases (ltb (time z) (time y))) [
      | inl less ↦ inr (IsIn-earliest time x l (ground (arith, found, less, h)))
      | inr more ↦ inl (ground (arith, found, more, h))
    ]
  ]

  pub earliest-none : (time : A → ℕ) (y : A) (l : List A) → earliest time l ≡ none → IsIn y l → ⊥
  unfolding earliest
  earliest-none time y [] h q = q
  earliest-none time y (z ∷ l) h q = elim (Option-cases (earliest time l)) [
    | inl empty ↦ ground (arith, empty, h)
    | inr (w, found) ↦ ground (arith, found, h)
  ]

  module _ (time : A → ℕ) (x z w : A) (l : List A) (found : earliest time l ≡ some w)
      (h : earliest time (z ∷ l) ≡ some x) (y : A) where
    earliest_head : y ≡ z → time x ≤ time y
    unfolding earliest
    earliest_head here = elim (Bool-cases (ltb (time w) (time z))) [
      | inl less ↦
          let same : w ≡ x = ground (arith, found, less, h) in
          let eq = ap time same in let eq' = ap time here in ground arith
      | inr more ↦
          let same : z ≡ x = ground (arith, found, more, h) in
          let eq = ap time (here ∙ same) in omega arith
    ]

    earliest_tail : time w ≤ time y → time x ≤ time y
    unfolding earliest
    earliest_tail le = elim (Bool-cases (ltb (time w) (time z))) [
      | inl less ↦
          let same : w ≡ x = ground (arith, found, less, h) in let eq = ap time same in omega arith
      | inr more ↦
          let same : z ≡ x = ground (arith, found, more, h) in let eq = ap time same in ground arith
    ]

  -- No row of the list is earlier.
  pub earliest_le :
      (time : A → ℕ) (x : A) (l : List A)
      → earliest time l ≡ some x
      → (y : A) → IsIn y l
      → time x ≤ time y
  unfolding earliest
  earliest_le time x [] h y q = cc
  earliest_le time x (z ∷ l) h y q = elim (Option-cases (earliest time l)) [
    | inl empty ↦ elim q [
      | inl here ↦
          let same : z ≡ x = ground (arith, empty, h) in
          let eq : time x ≡ time y = ap time (sym (here ∙ same)) in omega arith
      | inr later ↦ absurd (earliest-none time y l empty later)
    ]
    | inr (w, found) ↦ elim q [
      | inl here ↦ earliest_head time x z w l found h y here
      | inr later ↦ earliest_tail time x z w l found h y (earliest_le time w l found y later)
    ]
  ]
