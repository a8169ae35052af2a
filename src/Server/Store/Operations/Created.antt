-- ===== src/Server/Store/Operations/Created.antt =====
-- `create_campaign` of crates/server/src/store/postgres.rs, and the campaign that it returns.
use soro_fuzz.Base.{
  ℕ, ◌≡◌, ◌≢◌, refl, ◌∙◌, Bool, true, false, some, List, [], ◌∷◌, ◌++◌, map, String, string_eq,
  contains, arith, inl, inr, Bool-cases, Eq, ◌==◌, beq_refl, eq_of_beq,
}
use soro_fuzz.Server.Targets.{Target}
use soro_fuzz.Server.Store.{CampaignStatus, NewCampaign, CampaignRecord}
use soro_fuzz.Server.Store.Tables.{CampaignRow, RunRow, Tables, select_where}
use soro_fuzz.Server.Store.Operations.{
  with_runs, get_campaign, insert_rows, new_campaign_row, new_run_row, create_campaign,
  upsert_target, upsert_targets,
}
use soro_fuzz.Server.Store.Operations.Lists.{IsIn}
use soro_fuzz.Server.Store.Operations.Mirror.{Consistent, IsFresh}

module _ {A : Type 0} (p : A → Bool) where
  select_where-append :
      (l m : List A) → select_where p (l ++ m) ≡ select_where p l ++ select_where p m
  unfolding select_where
  select_where-append [] m = refl
  select_where-append (x ∷ l) m = ground (arith, select_where-append l m)

  select_where-nothing : (l : List A) → ((x : A) → IsIn x l → p x ≡ false) → select_where p l ≡ []
  unfolding select_where
  select_where-nothing [] h = refl
  select_where-nothing (x ∷ l) h =
      rw (h x (inl refl)) (select_where-nothing l (λ y iy. h y (inr iy)))

module _ {Uuid : Type 0} ⦃e : Eq Uuid⦄ where
  -- The record of a campaign that was just created.
  abbrev pub created_record : ℕ → Uuid → Uuid → NewCampaign → CampaignRecord Uuid
  created_record now campaign_id run_id input = record {
    id = campaign_id;
    target_id = input.target_id;
    name = input.name;
    invariant_ids = input.invariant_ids;
    time_budget_secs = input.time_budget_secs;
    status = CampaignStatus.queued;
    run_id = run_id;
    created_at = now;
  }

  with_runs-others :
      (c : CampaignRow Uuid) (l m : List (RunRow Uuid))
      → ((r : RunRow Uuid) → IsIn r l → r.campaign_id ≢ c.id)
      → with_runs c (l ++ m) ≡ with_runs c m
  unfolding with_runs
  with_runs-others c [] m h = refl
  with_runs-others c (r ∷ l) m h = elim (Bool-cases (r.campaign_id == c.id)) [
    | inl yes_ ↦ absurd (h r (inl refl) (eq_of_beq r.campaign_id c.id yes_))
    | inr no_ ↦ rw no_ (with_runs-others c l m (λ s is. h s (inr is)))
  ]

  module _ (now : ℕ) (c r j : Uuid) (input : NewCampaign) (t : Tables Uuid) (k : Consistent t)
      (new : IsFresh c r t) where
    abbrev campaign : CampaignRow Uuid
    campaign = new_campaign_row now c input

    abbrev is_new : CampaignRow Uuid → Bool
    is_new x = x.id == c

    only_new : select_where is_new (t.campaigns ++ campaign ∷ []) ≡ campaign ∷ []
    unfolding select_where
    only_new =
        select_where-append is_new t.campaigns (campaign ∷ [])
        ∙ rw (select_where-nothing is_new t.campaigns old, beq_refl c) refl
      where
        old : (x : CampaignRow Uuid) → IsIn x t.campaigns → is_new x ≡ false
        old x ix = elim (Bool-cases (is_new x)) [
          | inr no_ ↦ no_
          | inl yes_ ↦ absurd (new.0 x ix (eq_of_beq x.id c yes_))
        ]

    only_run :
        with_runs campaign (t.runs ++ new_run_row c r ∷ []) ≡ created_record now c r input ∷ []
    unfolding with_runs
    only_run = with_runs-others campaign t.runs (new_run_row c r ∷ []) others ∙ rw (beq_refl c) refl
      where
        others : (s : RunRow Uuid) → IsIn s t.runs → s.campaign_id ≢ c
        others s is same = let (x, ix, named) = k.refers s is in new.0 x ix (named ∙ same)

    get_created :
        get_campaign c (insert_rows now c r j input t) ≡ some (created_record now c r input)
    unfolding get_campaign insert_rows
    get_created = rw (only_new, only_run) refl

    -- With new ids, in consistent tables, a campaign on a target that the tables hold is created:
    -- the record returned is queued, with the values asked for, and is what `get_campaign` then
    -- reads.
    pub create_campaign_created :
        contains (map (λ row. row.id) t.targets) input.target_id ≡ true
        → (create_campaign now c r j input t
            ≡ some (created_record now c r input, insert_rows now c r j input t))
          × (get_campaign c (insert_rows now c r j input t) ≡ some (created_record now c r input))
    unfolding create_campaign
    create_campaign_created known = (rw (known, get_created) refl, get_created)

-- The ids of targets.
abbrev pub ids_of : List Target → List String
ids_of = map (λ row. row.id)

upsert_target_has :
    (target : Target) (rows : List Target)
    → contains (ids_of (upsert_target target rows)) target.id ≡ true
unfolding upsert_target
upsert_target_has target [] = ground (arith, beq_refl target.id)
upsert_target_has target (row ∷ rows) = elim (Bool-cases (row.id == target.id)) [
  | inl yes_ ↦ ground (arith, yes_)
  | inr no_ ↦ ground (arith, no_, upsert_target_has target rows)
]

upsert_target_keeps :
    (target : Target) (rows : List Target) (id : String)
    → contains (ids_of rows) id ≡ true
    → contains (ids_of (upsert_target target rows)) id ≡ true
unfolding upsert_target
upsert_target_keeps target [] id h = absurd (ground (arith, h))
upsert_target_keeps target (row ∷ rows) id h = elim (Bool-cases (row.id == target.id)) [
  | inl yes_ ↦ ground (arith, yes_)
  | inr no_ ↦ ground (arith, no_, upsert_target_keeps target rows id)
]

upsert_targets_keeps :
    (targets rows : List Target) (id : String)
    → contains (ids_of rows) id ≡ true
    → contains (ids_of (upsert_targets targets rows)) id ≡ true
unfolding upsert_targets
upsert_targets_keeps [] rows id h = h
upsert_targets_keeps (t ∷ targets) rows id h =
    upsert_targets_keeps targets (upsert_target t rows) id (upsert_target_keeps t rows id h)

-- After the targets are stored, each of them is there.
pub upsert_targets_has :
    (targets rows : List Target) (id : String)
    → contains (ids_of targets) id ≡ true
    → contains (ids_of (upsert_targets targets rows)) id ≡ true
unfolding upsert_targets
upsert_targets_has [] rows id h = absurd (ground (arith, h))
upsert_targets_has (t ∷ targets) rows id h = elim (Bool-cases (t.id == id)) [
  | inl yes_ ↦
      upsert_targets_keeps targets (upsert_target t rows) id
        (rw (← eq_of_beq t.id id yes_) (upsert_target_has t rows))
  | inr no_ ↦ upsert_targets_has targets (upsert_target t rows) id (ground (arith, no_, h))
]
