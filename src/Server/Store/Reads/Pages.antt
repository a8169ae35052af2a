-- ===== src/Server/Store/Reads/Pages.antt =====
-- The pages that `PgStore::list_campaigns` of crates/server/src/store/postgres.rs returns.
use mathlib.Core.List.{Perm}
use mathlib.Core.List.Perm
use soro_fuzz.Base.{
  sym, ap, ◌∙◌, refl, ◌↔◌, ◌&&◌, false, string_eq, ◌==◌, eq_of_beq, nat_beq, Option, none, ℕ, zero,
  suc, ◌≤◌, ◌≡◌, Bool, true, some, List, [], ◌∷◌, take, All, Eq, Bool-cases, inl, inr, leb, arith,
}
use soro_fuzz.Int.{◌≤ℤ◌, pos, ltb_ℤ, pos_part}
use soro_fuzz.Server.Store.{CampaignStatus, CampaignRecord}
use soro_fuzz.Server.Store.Tables.{Tables, select_where}
use soro_fuzz.Server.Store.Operations.{campaigns_with_runs}
use soro_fuzz.Server.Store.Reads.{
  CampaignFilter, status_code, null_or, skip, is_listed, insert_newest, newest_first,
  list_campaigns,
}

module _ {Uuid : Type 0} where
  abbrev pub IsNewestFirst : List (CampaignRecord Uuid) → Type 0
  IsNewestFirst [] = Unit
  IsNewestFirst (x ∷ l) = All (λ y. y.created_at ≤ x.created_at) l × IsNewestFirst l

  All-insert_newest :
      (P : CampaignRecord Uuid → Type 0) (x : CampaignRecord Uuid) (l : List (CampaignRecord Uuid))
      → P x
      → All P l
      → All P (insert_newest x l)
  unfolding insert_newest
  All-insert_newest P x [] p h = (p, tt)
  All-insert_newest P x (y ∷ l) p h = elim (Bool-cases (leb y.created_at x.created_at)) [
    | inl before ↦ rw before (p, h)
    | inr after ↦ rw after (h.0, All-insert_newest P x l p h.1)
  ]

  All-older :
      (m n : ℕ) (l : List (CampaignRecord Uuid))
      → m ≤ n
      → All (λ y. y.created_at ≤ m) l
      → All (λ y. y.created_at ≤ n) l
  All-older m n [] le h = tt
  All-older m n (y ∷ l) le h =
      let here : y.created_at ≤ m = h.0 in (omega arith, All-older m n l le h.1)

  insert_newest-IsNewestFirst :
      (x : CampaignRecord Uuid) (l : List (CampaignRecord Uuid))
      → IsNewestFirst l
      → IsNewestFirst (insert_newest x l)
  unfolding insert_newest
  insert_newest-IsNewestFirst x [] h = (tt, tt)
  insert_newest-IsNewestFirst x (y ∷ l) h = elim (Bool-cases (leb y.created_at x.created_at)) [
    | inl before ↦
        let le : y.created_at ≤ x.created_at = ground arith in
        rw before ((le, All-older y.created_at x.created_at l le h.0), h)
    | inr after ↦
        let le : x.created_at ≤ y.created_at = ground arith in
        rw after (
          All-insert_newest (λ z. z.created_at ≤ y.created_at) x l le h.0,
          insert_newest-IsNewestFirst x l h.1,
        )
  ]

  newest_first-IsNewestFirst : (l : List (CampaignRecord Uuid)) → IsNewestFirst (newest_first l)
  unfolding newest_first
  newest_first-IsNewestFirst [] = tt
  newest_first-IsNewestFirst (x ∷ l) =
      insert_newest-IsNewestFirst x (newest_first l) (newest_first-IsNewestFirst l)

-- The rows in another order.
insert_newest-Perm :
    {Uuid : Type 0} (x : CampaignRecord Uuid) (l : List (CampaignRecord Uuid))
    → Perm (insert_newest x l) (x ∷ l)
unfolding insert_newest
insert_newest-Perm x [] = Perm.refl (x ∷ [])
insert_newest-Perm x (y ∷ l) = elim (Bool-cases (leb y.created_at x.created_at)) [
  | inl before ↦ rw before (Perm.refl (x ∷ y ∷ l))
  | inr after ↦ rw after (Perm.trans (Perm.cons y (insert_newest-Perm x l)) (Perm.swap x y l))
]

newest_first-Perm : {Uuid : Type 0} (l : List (CampaignRecord Uuid)) → Perm (newest_first l) l
unfolding newest_first
newest_first-Perm [] = Perm.refl []
newest_first-Perm (x ∷ l) =
    Perm.trans (insert_newest-Perm x (newest_first l)) (Perm.cons x (newest_first-Perm l))

-- What holds of a value, if one is given.
abbrev pub IfGiven : {A : Type 0} → Option A → (A → Type 0) → Type 0
IfGiven none P = Unit
IfGiven (some a) P = P a

-- What the filter asks of a campaign.
abbrev pub IsAdmitted : {Uuid : Type 0} → CampaignFilter → CampaignRecord Uuid → Type 0
IsAdmitted filter c =
    IfGiven filter.status (λ s. c.status ≡ s)
    × IfGiven filter.target_id (λ id. c.target_id ≡ id)
    × IfGiven filter.since (λ t. t ≤ c.created_at)
    × IfGiven filter.until (λ t. c.created_at ≤ t)

decode : ℕ → CampaignStatus
decode zero = CampaignStatus.queued
decode (suc zero) = CampaignStatus.running
decode (suc (suc zero)) = CampaignStatus.completed
decode (suc (suc (suc zero))) = CampaignStatus.cancelled
decode _ = CampaignStatus.failed

decode-status_code : (s : CampaignStatus) → decode (status_code s) ≡ s
unfolding decode
decode-status_code CampaignStatus.queued = refl
decode-status_code CampaignStatus.running = refl
decode-status_code CampaignStatus.completed = refl
decode-status_code CampaignStatus.cancelled = refl
decode-status_code CampaignStatus.failed = refl

same_status : (s u : CampaignStatus) → (nat_beq (status_code s) (status_code u) ≡ true) ↔ (s ≡ u)
same_status s u = (
  λ h.
      let codes : status_code s ≡ status_code u = ground (arith, h) in
      sym (decode-status_code s) ∙ ap decode codes ∙ decode-status_code u,
  λ h. rw h (ground arith),
)

null_or-IfGiven :
    {A : Type 0} (o : Option A) (p : A → Bool) (P : A → Type 0)
    → ((a : A) → (p a ≡ true) ↔ P a)
    → (null_or o p ≡ true) ↔ IfGiven o P
null_or-IfGiven none p P h = (λ _. tt, λ _. refl)
null_or-IfGiven (some a) p P h = h a

is_listed-IsAdmitted :
    {Uuid : Type 0} (filter : CampaignFilter) (c : CampaignRecord Uuid)
    → (is_listed filter c ≡ true) ↔ IsAdmitted filter c
unfolding is_listed
is_listed-IsAdmitted filter c =
    let (s0, s1) =
      null_or-IfGiven filter.status (λ s. nat_beq (status_code c.status) (status_code s))
        (λ s. c.status ≡ s) (same_status c.status) in
    let (i0, i1) =
      null_or-IfGiven filter.target_id (λ id. c.target_id == id) (λ id. c.target_id ≡ id)
        (λ id. (eq_of_beq c.target_id id, (string_eq.beq_iff c.target_id id).1)) in
    let (f0, f1) =
      null_or-IfGiven filter.since (λ t. leb t c.created_at) (λ t. t ≤ c.created_at)
        (λ t. (λ h. ground arith, λ h. ground arith)) in
    let (u0, u1) =
      null_or-IfGiven filter.until (λ t. leb c.created_at t) (λ t. c.created_at ≤ t)
        (λ t. (λ h. ground arith, λ h. ground arith)) in
    (
      λ h. let (a, b, c, d) = four_true _ _ _ _ h in (s0 a, i0 b, f0 c, u0 d),
      λ (a, b, c, d). four_of _ _ _ _ (s1 a) (i1 b) (f1 c) (u1 d),
    )
  where
    four_true :
        (a b c d : Bool)
        → (a && (b && (c && d))) ≡ true
        → (a ≡ true) × (b ≡ true) × (c ≡ true) × (d ≡ true)
    four_true a b c d h = ground arith

    four_of :
        (a b c d : Bool) → a ≡ true → b ≡ true → c ≡ true → d ≡ true → (a && (b && (c && d))) ≡ true
    four_of a b c d ha hb hc hd = ground arith

-- The rows that a filter admits, those and no others, each as often as it stands among all rows.
module _ {Uuid : Type 0} where
  abbrev pub IsListing :
      CampaignFilter → List (CampaignRecord Uuid) → List (CampaignRecord Uuid) → Type 0
  IsListing filter rows listed =
      (keep : CampaignRecord Uuid → Bool) × Perm listed (select_where keep rows)
      × ((c : CampaignRecord Uuid) → (keep c ≡ true) ↔ IsAdmitted filter c)

-- Of the campaigns that the filter admits, all of them and each as often as the join has it, ordered
-- with the newest first, a page has the piece after `offset` of them and of `limit` of them at most,
-- if neither the limit nor the offset is negative.
pub list_campaigns_page :
    {Uuid : Type 0} ⦃e : Eq Uuid⦄ (filter : CampaignFilter) (t : Tables Uuid)
    → pos 0 ≤ℤ filter.limit
    → pos 0 ≤ℤ filter.offset
    → (listed : List (CampaignRecord Uuid)) × IsNewestFirst listed
      × IsListing filter (campaigns_with_runs t.campaigns t.runs) listed
      × (list_campaigns filter t
          ≡ some (take (pos_part filter.limit) (skip (pos_part filter.offset) listed)))
unfolding list_campaigns
list_campaigns_page filter t low from =
    let selected = select_where (is_listed filter) (campaigns_with_runs t.campaigns t.runs) in
    let limit : ltb_ℤ filter.limit (pos 0) ≡ false = ground arith in
    let offset : ltb_ℤ filter.offset (pos 0) ≡ false = ground arith in
    (
      newest_first selected,
      newest_first-IsNewestFirst selected,
      (is_listed filter, newest_first-Perm selected, is_listed-IsAdmitted filter),
      rw (limit, offset) refl,
    )
