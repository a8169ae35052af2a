-- ===== src/Server/Api/Campaigns/Checks.antt =====
-- Which requests crates/server/src/api/campaigns.rs lets through to the store.
use soro_fuzz.Base.{
  ℕ, ◌≡◌, refl, true, false, ◌||◌, some, List, [], ◌∷◌, map, String, string_eq, contains, is_blank,
  All, arith, inl, inr, ◌⊎◌, ◌↔◌, Bool-cases, Option-cases,
}
use soro_fuzz.Base.Results.{Result, ok, err}
use soro_fuzz.Int.{ℤ, pos, negsuc, ◌≤ℤ◌, ltb_ℤ, as_i32, as_i32_pos, i32_max}
use soro_fuzz.Server.Store.{CampaignStatus, NewCampaign, CampaignRecord}
use soro_fuzz.Server.Store.Interface.{StoreError}
use soro_fuzz.Server.Targets.{Target, get}
use soro_fuzz.Server.Api.{Formats, ApiError, internal, AppState, Handler, go_on}
use soro_fuzz.Server.Api.Campaigns.{
  CreateCampaignRequest, campaign_dto, check_invariants, validate, create_campaign,
  parse_campaign_status,
}

abbrev pub offered : Target → List String
offered target = map (λ i. i.id) target.available_invariants

-- What a request for a campaign on a target has to be.
pub record IsAcceptable (target : Target) (max : ℤ) (body : CreateCampaignRequest) : Type 0 where
  pub named : is_blank body.name ≡ false
  pub invariants : All (λ id. contains (offered target) id ≡ true) body.invariant_ids
  pub at_least : pos 1 ≤ℤ body.time_budget_secs
  pub at_most : body.time_budget_secs ≤ℤ max

-- The result is an error with the status code.
abbrev pub IsRefused {ℓ} : {A : Type ℓ} → ℕ → Result ApiError A → Type 0
IsRefused code (ok a) = ⊥
IsRefused code (err e) = e.status ≡ code

check_invariants_offered :
    (target_id : String) (available ids : List String)
    → All (λ id. contains available id ≡ true) ids
    → check_invariants target_id available ids ≡ ok tt
unfolding check_invariants
check_invariants_offered target_id available [] h = refl
check_invariants_offered target_id available (id ∷ ids) (here, h) =
    rw here (check_invariants_offered target_id available ids h)

offered_check_invariants :
    (target_id : String) (available ids : List String)
    → (All (λ id. contains available id ≡ true) ids)
      ⊎ IsRefused 400 (check_invariants target_id available ids)
unfolding check_invariants
offered_check_invariants target_id available [] = inl tt
offered_check_invariants target_id available (id ∷ ids) =
    elim (Bool-cases (contains available id)) [
      | inr no_ ↦ inr (rw no_ refl)
      | inl yes_ ↦ elim (offered_check_invariants target_id available ids) [
        | inl h ↦ inl (yes_, h)
        | inr refused ↦ inr (rw yes_ refused)
      ]
    ]

budget_le : (b max : ℤ) → (ltb_ℤ b (pos 1) || ltb_ℤ max b) ≡ false → (pos 1 ≤ℤ b) × (b ≤ℤ max)
budget_le b max h = ground arith

le_budget : (b max : ℤ) → pos 1 ≤ℤ b → b ≤ℤ max → (ltb_ℤ b (pos 1) || ltb_ℤ max b) ≡ false
le_budget b max low high = ground arith

validate_acceptable :
    (target : Target) (max : ℤ) (body : CreateCampaignRequest)
    → IsAcceptable target max body
    → validate (some target) max body ≡ ok tt
unfolding validate
validate_acceptable target max body h =
    rw
      (
        h.named,
        check_invariants_offered body.target_id (offered target) body.invariant_ids h.invariants,
        le_budget body.time_budget_secs max h.at_least h.at_most,
      )
      refl

IsRefused-later :
    {A : Type 0} (r : Result ApiError A) (rest : A → Result ApiError (Unit {0}))
    → IsRefused 400 r
    → IsRefused 400 (elim r [ err e ↦ err e | ok a ↦ rest a ])
IsRefused-later (ok a) rest h = absurd h
IsRefused-later (err e) rest h = h

-- A request is acceptable, or the answer to it has the status code 400.
validate_cases :
    (target : Target) (max : ℤ) (body : CreateCampaignRequest)
    → IsAcceptable target max body ⊎ IsRefused 400 (validate (some target) max body)
unfolding validate
validate_cases target max body = elim (Bool-cases (is_blank body.name)) [
  | inl blank ↦ inr (rw blank refl)
  | inr named ↦ elim (offered_check_invariants body.target_id (offered target) body.invariant_ids) [
    | inr refused ↦ inr (
        rw named (
          IsRefused-later (check_invariants body.target_id (offered target) body.invariant_ids) _
            refused))
    | inl invariants ↦
        let checked =
          check_invariants_offered body.target_id (offered target) body.invariant_ids invariants in
        elim (Bool-cases (ltb_ℤ body.time_budget_secs (pos 1) || ltb_ℤ max body.time_budget_secs)) [
          | inl out_ ↦ inr (rw (named, checked, out_) refl)
          | inr within ↦
              let (low, high) = budget_le body.time_budget_secs max within in
              inl
                (record { named = named; invariants = invariants; at_least = low; at_most = high })
        ]
  ]
]

IsRefused-go_on :
    {S A B : Type 0} (r : Result ApiError A) (f : A → Handler S B) (s : S)
    → IsRefused 400 r
    → IsRefused 400 (go_on (r, s) f).0 × ((go_on (r, s) f).1 ≡ s)
IsRefused-go_on (ok a) f s h = absurd h
IsRefused-go_on (err e) f s h = (h, refl)

module _ {S Uuid Sender : Type 0} (formats : Formats Uuid) (state : AppState S Uuid Sender)
    (body : CreateCampaignRequest) (s : S) where
  -- What the store is asked to create, with the time budget as it was sent.
  abbrev pub requested : NewCampaign
  requested = record {
    target_id = body.target_id;
    name = body.name;
    invariant_ids = body.invariant_ids;
    time_budget_secs = body.time_budget_secs;
  }

  fits : (b max : ℤ) → pos 1 ≤ℤ b → b ≤ℤ max → max ≤ℤ i32_max → as_i32 b ≡ b
  fits (pos n) max low high small = as_i32_pos n (ground (arith, high, small))
  fits (negsuc n) max low high small = absurd (ground (arith, low))

  -- A request that names a target of the registry and is acceptable for it, under a maximum that
  -- fits into 32 bits, is put to the store with the time budget as it was sent; the answer is 201
  -- with the store's record, or the internal error that tells nothing of the store's.
  pub create_campaign_accepted :
      (target : Target)
      → get body.target_id state.targets ≡ some target
      → IsAcceptable target state.max_time_budget_secs body
      → state.max_time_budget_secs ≤ℤ i32_max
      → ((row : CampaignRecord Uuid) (s' : S)
          → state.store.create_campaign requested s ≡ (ok row, s')
          → create_campaign formats state body s ≡ (ok (201, campaign_dto formats row), s'))
        × ((e : StoreError) (s' : S)
            → state.store.create_campaign requested s ≡ (err e, s')
            → create_campaign formats state body s
              ≡ (err (internal "an internal error occurred"), s'))
  unfolding create_campaign
  create_campaign_accepted target known h small =
      let checked = validate_acceptable target state.max_time_budget_secs body h in
      let same = fits body.time_budget_secs state.max_time_budget_secs h.at_least h.at_most small in
      (
        λ row s' stored. rw (known, checked, same, stored) refl,
        λ e s' failed. rw (known, checked, same, failed) refl,
      )

  -- Every request that does not name a target of the registry for which it is acceptable is
  -- answered by the status code 400, and the store is not asked.
  pub create_campaign-IsRefused :
      ((target : Target)
        → get body.target_id state.targets ≡ some target
        → ¬ IsAcceptable target state.max_time_budget_secs body)
      → IsRefused 400 (create_campaign formats state body s).0
        × ((create_campaign formats state body s).1 ≡ s)
  unfolding create_campaign validate
  create_campaign-IsRefused none_fits =
      IsRefused-go_on (validate (get body.target_id state.targets) state.max_time_budget_secs body)
        _ s
        (elim (Option-cases (get body.target_id state.targets)) [
          | inl unknown ↦ rw (unknown, validate) refl
          | inr (target, known) ↦
              rw known (elim (validate_cases target state.max_time_budget_secs body) [
                | inl fits_ ↦ absurd (none_fits target known fits_)
                | inr refused ↦ refused
              ])
        ])

-- The names of the statuses in the API, as `rename_all` makes them.
abbrev pub status_name : CampaignStatus → String
status_name CampaignStatus.queued = "queued"
status_name CampaignStatus.running = "running"
status_name CampaignStatus.completed = "completed"
status_name CampaignStatus.cancelled = "cancelled"
status_name CampaignStatus.failed = "failed"

-- Parsing gives a status exactly for its name.
pub parse_campaign_status-status_name :
    (raw : String) (s : CampaignStatus) → (parse_campaign_status raw ≡ ok s) ↔ (raw ≡ status_name s)
unfolding parse_campaign_status
parse_campaign_status-status_name raw s = (parsed s, λ named. rw named (printed s))
  where
    parsed : (s : CampaignStatus) → parse_campaign_status raw ≡ ok s → raw ≡ status_name s
    parsed s h = ground (
      arith,
      h,
      string_eq.beq_iff raw "queued",
      string_eq.beq_iff raw "running",
      string_eq.beq_iff raw "completed",
      string_eq.beq_iff raw "cancelled",
      string_eq.beq_iff raw "failed",
    )

    printed : (s : CampaignStatus) → parse_campaign_status (status_name s) ≡ ok s
    printed CampaignStatus.queued = refl
    printed CampaignStatus.running = refl
    printed CampaignStatus.completed = refl
    printed CampaignStatus.cancelled = refl
    printed CampaignStatus.failed = refl
