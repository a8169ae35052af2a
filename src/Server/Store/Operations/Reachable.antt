-- ===== src/Server/Store/Operations/Reachable.antt =====
-- Sequences of transactions of crates/server/src/store/postgres.rs, from empty tables on, in
-- whatever order the API's requests and the workers make them.
use soro_fuzz.Base.{
  ℕ, ◌≡◌, refl, some, List, [], ◌∷◌, ◌++◌, ◌⊎◌, inl, inr, Bool-cases, Option-cases, arith, String,
  string_eq, Eq, ◌==◌, eq_of_beq, contains, subst, map,
}
use soro_fuzz.Server.Targets.{Target}
use soro_fuzz.Server.Store.{NewCampaign, RunFinish, CampaignRecord}
use soro_fuzz.Server.Store.Tables.{CampaignRow, RunRow, Tables, select_where, first_row}
use soro_fuzz.Server.Store.Operations.{
  with_runs, campaigns_with_runs, get_campaign, insert_rows, new_campaign_row, new_run_row,
  create_campaign, sync_targets, cancel_campaign, claim_job, start_run, finish_run,
}
use soro_fuzz.Server.Store.Operations.Lists.{IsIn, IsIn-select_where}
use soro_fuzz.Server.Store.Operations.Mirror.{
  mirror, Consistent, unchanged-Consistent, IsFresh, add_rows-Consistent,
}
use soro_fuzz.Server.Store.Operations.Transitions.{
  cancel_campaign-Consistent, claim_job-Consistent, start_run-Consistent, finish_run-Consistent,
}

module _ {Uuid : Type 0} ⦃e : Eq Uuid⦄ where
  -- One transaction. The ids that the database generates for a campaign are new.
  pub data Does (t : Tables Uuid) : Tables Uuid → Type 0 where
    syncs : (targets : List Target) → Does t (sync_targets targets t)
    creates :
        {t' : Tables Uuid} (now : ℕ) (campaign_id run_id job_id : Uuid) (input : NewCampaign)
        (row : CampaignRecord Uuid)
        → IsFresh campaign_id run_id t
        → create_campaign now campaign_id run_id job_id input t ≡ some (row, t')
        → Does t t'
    cancels : (now : ℕ) (id : Uuid) → Does t (cancel_campaign now id t).1
    claims : (now : ℕ) (worker : String) → Does t (claim_job now worker t).1
    starts : (now : ℕ) (run_id : Uuid) (worker : String) → Does t (start_run now run_id worker t).1
    finishes :
        {t' : Tables Uuid} (now : ℕ) (run_id : Uuid) (ids : List Uuid) (finish : RunFinish)
        → finish_run now run_id ids finish t ≡ some t'
        → Does t t'

  abbrev pub empty_tables : List Target → Tables Uuid
  empty_tables targets = record {
    targets = targets;
    campaigns = [];
    runs = [];
    jobs = [];
    findings = [];
  }

  pub data Reachable : Tables Uuid → Type 0 where
    fresh : (targets : List Target) → Reachable (empty_tables targets)
    after : {t t' : Tables Uuid} → Reachable t → Does t t' → Reachable t'

  -- What `create_campaign` leaves, if it succeeds.
  pub create_campaign-insert_rows :
      (now : ℕ) (c r j : Uuid) (input : NewCampaign) (t : Tables Uuid) (row : CampaignRecord Uuid)
      (t' : Tables Uuid)
      → create_campaign now c r j input t ≡ some (row, t')
      → insert_rows now c r j input t ≡ t'
  unfolding create_campaign
  create_campaign-insert_rows now c r j input t row t' made =
      elim (Bool-cases (contains (map (λ row. row.id) t.targets) input.target_id)) [
        | inr unknown ↦ ground (arith, unknown, made)
        | inl known ↦ elim (Option-cases (get_campaign c (insert_rows now c r j input t))) [
          | inl absent ↦ ground (arith, known, absent, made)
          | inr (found, is) ↦ ground (arith, known, is, made)
        ]
      ]

  Does-Consistent : {t t' : Tables Uuid} → Does t t' → Consistent t → Consistent t'
  unfolding insert_rows mirror sync_targets
  Does-Consistent {t} {t'} (creates now c r j input row new made) k =
      subst Consistent (create_campaign-insert_rows now c r j input t row t' made) (
        add_rows-Consistent t (insert_rows now c r j input t) (new_campaign_row now c input)
          (new_run_row c r) refl refl refl refl new k)
  Does-Consistent {t} (syncs targets) k =
      unchanged-Consistent t (sync_targets targets t) refl refl k
  Does-Consistent {t} (cancels now id) k = cancel_campaign-Consistent now id t k
  Does-Consistent {t} (claims now worker) k = claim_job-Consistent now worker t k
  Does-Consistent {t} (starts now run_id worker) k = start_run-Consistent now run_id worker t k
  Does-Consistent {t} {t'} (finishes now run_id ids finish made) k =
      finish_run-Consistent now run_id ids finish t t' made k

  -- In whatever order transactions follow one another as wholes, starting from empty tables and with
  -- new ids for each campaign: every campaign has a run and no other, every run belongs to a campaign,
  -- and the status of a campaign is the mirror of its run's.
  pub Reachable-Consistent : {t : Tables Uuid} → Reachable t → Consistent t
  Reachable-Consistent (fresh targets) = record {
    one_row = λ r s h. absurd h;
    one_run = λ r s h. absurd h;
    refers = λ r h. absurd h;
    has_run = λ c h. absurd h;
    mirrored = λ c r h. absurd h;
  }
  Reachable-Consistent (after h d) = Does-Consistent d (Reachable-Consistent h)

  -- The row that `get_campaign` returns is that of a campaign with the id.
  with_runs_status :
      (c : CampaignRow Uuid) (runs : List (RunRow Uuid)) (rest : List (CampaignRecord Uuid))
      (x : CampaignRecord Uuid)
      → first_row (with_runs c runs ++ rest) ≡ some x
      → (c.status ≡ x.status) ⊎ (first_row rest ≡ some x)
  unfolding with_runs
  with_runs_status c [] rest x h = inr h
  with_runs_status c (r ∷ runs) rest x h = elim (Bool-cases (r.campaign_id == c.id)) [
    | inl yes_ ↦ inl (ground (arith, yes_, h))
    | inr no_ ↦ with_runs_status c runs rest x (rw no_ at h)
  ]

  joined_status :
      (cs : List (CampaignRow Uuid)) (runs : List (RunRow Uuid)) (x : CampaignRecord Uuid)
      → first_row (campaigns_with_runs cs runs) ≡ some x
      → (c : CampaignRow Uuid) × IsIn c cs × (c.status ≡ x.status)
  unfolding campaigns_with_runs
  joined_status [] runs x h = cc
  joined_status (c ∷ cs) runs x h =
      elim (with_runs_status c runs (campaigns_with_runs cs runs) x h) [
        | inl same ↦ (c, inl refl, same)
        | inr later ↦ let (d, here, same) = joined_status cs runs x later in (d, inr here, same)
      ]

  pub get_campaign_row :
      (id : Uuid) (t : Tables Uuid) (x : CampaignRecord Uuid)
      → get_campaign id t ≡ some x
      → (c : CampaignRow Uuid) × IsIn c t.campaigns × (c.id ≡ id) × (c.status ≡ x.status)
  unfolding get_campaign
  get_campaign_row id t x h =
      let (c, here, same) = joined_status (select_where (λ d. d.id == id) t.campaigns) t.runs x h in
      let (held, is) = IsIn-select_where (λ d. d.id == id) c t.campaigns here in
      (c, held, eq_of_beq c.id id is, same)
