-- ===== src/Server/Targets/Registry.antt =====
-- The registry of crates/server/src/targets.rs against the manifest that it is built from.
use soro_fuzz.Base.{
  ◌≡◌, refl, ap, ◌∙◌, false, List, [], ◌∷◌, ◌++◌, map, Option, none, some, String, string_eq, ◌==◌,
  is_blank, find?, filter_map, contains, Distinct, All, inl, inr, Bool-cases, Option-cases, arith,
}
use mathlib.Core.List.{append-nil, append_assoc}
use soro_fuzz.Base.Dict.{lookup, insert, lookup-insert}
use soro_fuzz.Base.Results.{ok}
use soro_fuzz.Server.Targets.{Target, TargetRegistry, from_targets_loop, from_targets, list, get}

abbrev pub target_ids : List Target → List String
target_ids targets = map (λ t. t.id) targets

-- What the manifest has to be: every target with an id and a fuzz target's name that are not blank,
-- and no id twice.
abbrev pub IsManifest : List Target → Type 0
IsManifest targets =
    All (λ t. (is_blank t.id ≡ false) × (is_blank t.fuzz_target_name ≡ false)) targets
    × Distinct (target_ids targets)

-- The entries after the loop.
insert_all : List Target → List (String × Target) → List (String × Target)
insert_all [] d = d
insert_all (t ∷ ts) d = insert_all ts (insert t.id t d)

abbrev Absent : List (String × Target) → List Target → Type 0
Absent d = All (λ t. lookup t.id d ≡ none)

Absent-insert :
    (t : Target) (d : List (String × Target)) (ts : List Target)
    → contains (target_ids ts) t.id ≡ false
    → Absent d ts
    → Absent (insert t.id t d) ts
Absent-insert t d [] fresh h = tt
Absent-insert t d (u ∷ us) fresh (hu, h) = (
  ground (
    arith,
    lookup-insert t.id u.id t d,
    string_eq.beq_iff u.id t.id,
    string_eq.beq_iff t.id u.id,
  ),
  Absent-insert t d us (ground arith) h,
)

insert-Absent :
    (t : Target) (d : List (String × Target)) (ts : List Target)
    → Absent (insert t.id t d) ts
    → (contains (target_ids ts) t.id ≡ false) × Absent d ts
insert-Absent t d [] h = (refl, tt)
insert-Absent t d (u ∷ us) (hu, h) =
    let (fresh, rest) = insert-Absent t d us h in
    (
      ground (
        arith,
        lookup-insert t.id u.id t d,
        string_eq.beq_iff u.id t.id,
        string_eq.beq_iff t.id u.id,
      ),
      (ground (arith, lookup-insert t.id u.id t d), rest),
    )

-- What the loop makes of the targets that are left.
pub built : List (String × Target) → List String → List Target → TargetRegistry
unfolding insert_all
built d order ts = record { by_id = insert_all ts d; order = order ++ target_ids ts }

module _ {I J : Type 0} where
  from_targets_loop_accepts :
      (d : List (String × Target)) (order : List String) (ts : List Target)
      → IsManifest ts
      → Absent d ts
      → from_targets_loop {IoError = I} {JsonError = J} d order ts ≡ ok (built d order ts)
  unfolding from_targets_loop built
  from_targets_loop_accepts d order [] h k = rw (append-nil order)
  from_targets_loop_accepts d order (t ∷ ts) (((ht, hn), h), (hd, hs)) (ka, k) =
      let rest =
        from_targets_loop_accepts (insert t.id t d) (order ++ t.id ∷ []) ts (h, hs)
          (Absent-insert t d ts hd k) in
      rw (ht, hn, ka) (rest ∙ rw (append_assoc order (t.id ∷ []) (target_ids ts)))

  from_targets_loop-IsManifest :
      (d : List (String × Target)) (order : List String) (ts : List Target) (r : TargetRegistry)
      → from_targets_loop {IoError = I} {JsonError = J} d order ts ≡ ok r
      → IsManifest ts × Absent d ts
  unfolding from_targets_loop
  from_targets_loop-IsManifest d order [] r h = ((tt, tt), tt)
  from_targets_loop-IsManifest d order (t ∷ ts) r h = elim (Bool-cases (is_blank t.id)) [
    | inl blank ↦ ground (arith, blank)
    | inr ht ↦ elim (Bool-cases (is_blank t.fuzz_target_name)) [
      | inl blank ↦ ground (arith, ht, blank)
      | inr hn ↦ elim (Option-cases (lookup t.id d)) [
        | inr (u, there) ↦ ground (arith, ht, hn, there)
        | inl ka ↦
            let ((hs, ds), k) =
              from_targets_loop-IsManifest (insert t.id t d) (order ++ t.id ∷ []) ts r
                (ground (arith, ht, hn, ka)) in
            let (fresh, ks) = insert-Absent t d ts k in ((((ht, hn), hs), (fresh, ds)), (ka, ks))
      ]
    ]
  ]

-- The target of the manifest with an id.
abbrev pub named : String → List Target → Option Target
named id = find? (λ t. t.id == id)

abbrev or_else : Option Target → Option Target → Option Target
or_else none o = o
or_else (some t) o = some t

named-none :
    (id : String) (ts : List Target) → contains (target_ids ts) id ≡ false → named id ts ≡ none
named-none id [] h = refl
named-none id (t ∷ ts) h = ground (arith, named-none id ts)

lookup-insert_all :
    (id : String) (ts : List Target) (d : List (String × Target))
    → Distinct (target_ids ts)
    → lookup id (insert_all ts d) ≡ or_else (named id ts) (lookup id d)
unfolding insert_all
lookup-insert_all id [] d h = refl
lookup-insert_all id (t ∷ ts) d (fresh, h) =
    lookup-insert_all id ts (insert t.id t d) h
    ∙ ground (
      arith,
      lookup-insert t.id id t d,
      string_eq.beq_iff t.id id,
      named-none id ts,
      ap (contains (target_ids ts)),
    )

-- A function that finds all targets lists them in their order.
filter_map-ids :
    (f : String → Option Target) (ts : List Target)
    → All (λ t. f t.id ≡ some t) ts
    → filter_map f (target_ids ts) ≡ ts
filter_map-ids f [] h = refl
filter_map-ids f (t ∷ ts) (ht, h) = rw (ht, filter_map-ids f ts h)

named-later :
    (t : Target) (us ts : List Target)
    → contains (target_ids ts) t.id ≡ false
    → All (λ u. named u.id us ≡ some u) ts
    → All (λ u. named u.id (t ∷ us) ≡ some u) ts
named-later t us [] fresh h = tt
named-later t us (u ∷ ts) fresh (hu, h) = (
  ground (arith, string_eq.beq_iff u.id t.id, string_eq.beq_iff t.id u.id),
  named-later t us ts (ground arith) h,
)

named-All : (ts : List Target) → Distinct (target_ids ts) → All (λ t. named t.id ts ≡ some t) ts
named-All [] h = tt
named-All (t ∷ ts) (fresh, h) =
    (rw (string_eq.beq_iff t.id t.id).1 refl, named-later t ts ts fresh (named-All ts h))

All-map {κ} :
    {A : Type 0} {P Q : A → Type κ} → ((x : A) → P x → Q x) → (xs : List A) → All P xs → All Q xs
All-map f [] h = tt
All-map f (x ∷ xs) (h, hs) = (f x h, All-map f xs hs)

built-get :
    (id : String) (ts : List Target)
    → Distinct (target_ids ts)
    → get id (built [] [] ts) ≡ named id ts
unfolding get built lookup
built-get id ts h = lookup-insert_all id ts [] h ∙ ground arith

built-list : (ts : List Target) → Distinct (target_ids ts) → list (built [] [] ts) ≡ ts
unfolding list built get
built-list ts h =
    filter_map-ids (λ id. lookup id (insert_all ts [])) ts
      (All-map (λ t found. built-get t.id ts h ∙ found) ts (named-All ts h))

Absent-nil : (ts : List Target) → Absent [] ts
unfolding lookup
Absent-nil [] = tt
Absent-nil (t ∷ ts) = (refl, Absent-nil ts)

module _ {I J : Type 0} where
  -- A manifest is accepted exactly when every target has an id and a fuzz target's name that are
  -- not blank, and no two targets have one id. The registry then lists the targets in the
  -- manifest's order, and looking up an id gives the target that has it, or nothing where none has.
  pub from_targets_lem :
      (ts : List Target)
      → (IsManifest ts
          → (r : TargetRegistry) × (from_targets {IoError = I} {JsonError = J} ts ≡ ok r)
            × (list r ≡ ts)
            × ((id : String) → get id r ≡ named id ts))
        × ((r : TargetRegistry)
            → from_targets {IoError = I} {JsonError = J} ts ≡ ok r
            → IsManifest ts)
  unfolding from_targets
  from_targets_lem ts = (
    λ (valid, distinct). (
      built [] [] ts,
      from_targets_loop_accepts [] [] ts (valid, distinct) (Absent-nil ts),
      built-list ts distinct,
      λ id. built-get id ts distinct,
    ),
    λ r h. (from_targets_loop-IsManifest [] [] ts r h).0,
  )
