-- ===== src/Server/Store/Operations.antt =====
-- The methods of `PgStore`, crates/server/src/store/postgres.rs. Each is one transaction, a
-- function on the tables; ids that the database generates and the time are arguments. `none` as a
-- result is a `StoreError`.
pub mod Lists
pub mod Mirror
pub mod Transitions
pub mod Reachable
pub mod Outcomes
pub mod Claims
pub mod Runs
pub mod Ended
pub mod Overlap
pub mod Queue
pub mod Created
use soro_fuzz.Base.{
  ℕ, suc, Bool, true, false, ◌&&◌, ◌||◌, not, Option, none, some, List, [], ◌∷◌, ◌++◌, map, String,
  string_eq, Eq, ◌==◌, contains, if◌then◌else◌,
}
use soro_fuzz.Int
use soro_fuzz.Server.Targets.{Target}
use soro_fuzz.Server.Store.{
  CampaignStatus, is_terminal, RunStatus, RunFinishStatus, run_status, campaign_status, NewCampaign,
  NewFinding, RunFinish, CampaignRecord, ClaimedJob,
}
use soro_fuzz.Server.Store.Tables.{
  CampaignRow, RunRow, JobRow, FindingRow, Tables, select_where, first_row, update_where, earliest,
}

unfoldable pub is_pending : RunStatus → Bool
is_pending RunStatus.pending = true
is_pending _ = false

unfoldable pub is_running : RunStatus → Bool
is_running RunStatus.running = true
is_running _ = false

unfoldable pub is_queued : CampaignStatus → Bool
is_queued CampaignStatus.queued = true
is_queued _ = false

abbrev pub is_null : {A : Type 0} → Option A → Bool
is_null none = true
is_null (some _) = false

abbrev pub is_empty : {A : Type 0} → List A → Bool
is_empty [] = true
is_empty (_ ∷ _) = false

-- The row of `target`, inserted, or updated where there is one with its id.
unfoldable pub upsert_target : Target → List Target → List Target
upsert_target target [] = target ∷ []
upsert_target target (row ∷ rows) =
    if row.id == target.id
    then record target { id = row.id } ∷ rows
    else row ∷ upsert_target target rows

-- The loop of `sync_targets`.
unfoldable pub upsert_targets : List Target → List Target → List Target
unfolding upsert_target
upsert_targets [] rows = rows
upsert_targets (target ∷ targets) rows = upsert_targets targets (upsert_target target rows)

module _ {Uuid : Type 0} ⦃e : Eq Uuid⦄ where
  -- `SELECT_CAMPAIGN_WITH_RUN`: a row for each run of a campaign.
  unfoldable pub with_runs : CampaignRow Uuid → List (RunRow Uuid) → List (CampaignRecord Uuid)
  with_runs c [] = []
  with_runs c (r ∷ runs) =
      let rest = with_runs c runs in
      if r.campaign_id == c.id
      then record {
        id = c.id;
        target_id = c.target_id;
        name = c.name;
        invariant_ids = c.invariant_ids;
        time_budget_secs = c.time_budget_secs;
        status = c.status;
        run_id = r.id;
        created_at = c.created_at;
      }
        ∷ rest
      else rest

  unfoldable pub campaigns_with_runs :
      List (CampaignRow Uuid) → List (RunRow Uuid) → List (CampaignRecord Uuid)
  unfolding with_runs
  campaigns_with_runs [] runs = []
  campaigns_with_runs (c ∷ cs) runs = with_runs c runs ++ campaigns_with_runs cs runs

  unfoldable pub get_campaign : Uuid → Tables Uuid → Option (CampaignRecord Uuid)
  unfolding campaigns_with_runs select_where
  get_campaign id t =
      first_row (campaigns_with_runs (select_where (λ c. c.id == id) t.campaigns) t.runs)

  -- The rows that `create_campaign` inserts, with the columns that are left to their defaults.
  abbrev pub new_campaign_row : ℕ → Uuid → NewCampaign → CampaignRow Uuid
  new_campaign_row now campaign_id input = record {
    id = campaign_id;
    target_id = input.target_id;
    name = input.name;
    invariant_ids = input.invariant_ids;
    time_budget_secs = input.time_budget_secs;
    status = CampaignStatus.queued;
    created_at = now;
    updated_at = now;
  }

  abbrev pub new_run_row : Uuid → Uuid → RunRow Uuid
  new_run_row campaign_id run_id = record {
    id = run_id;
    campaign_id = campaign_id;
    status = RunStatus.pending;
    iterations = Int.pos 0;
    started_at = none;
    finished_at = none;
    worker = none;
    log_tail = none;
  }

  abbrev pub new_job_row : ℕ → Uuid → Uuid → Uuid → JobRow Uuid
  new_job_row now campaign_id run_id job_id = record {
    id = job_id;
    campaign_id = campaign_id;
    run_id = run_id;
    claimed_by = none;
    claimed_at = none;
    attempts = 0;
    created_at = now;
  }

  unfoldable pub insert_rows : ℕ → Uuid → Uuid → Uuid → NewCampaign → Tables Uuid → Tables Uuid
  insert_rows now campaign_id run_id job_id input t = record t {
    campaigns = t.campaigns ++ (new_campaign_row now campaign_id input ∷ []);
    runs = t.runs ++ (new_run_row campaign_id run_id ∷ []);
    jobs = t.jobs ++ (new_job_row now campaign_id run_id job_id ∷ []);
  }

  unfoldable pub sync_targets : List Target → Tables Uuid → Tables Uuid
  unfolding upsert_targets
  sync_targets targets t = record t { targets = upsert_targets targets t.targets }

  -- `campaigns.target_id` is a foreign key.
  unfoldable pub create_campaign :
      ℕ
      → Uuid
      → Uuid
      → Uuid
      → NewCampaign
      → Tables Uuid
      → Option (CampaignRecord Uuid × Tables Uuid)
  unfolding get_campaign insert_rows
  create_campaign now campaign_id run_id job_id input t =
      if contains (map (λ row. row.id) t.targets) input.target_id
      then (let t' = insert_rows now campaign_id run_id job_id input t in
          elim (get_campaign campaign_id t') [ none ↦ none | some row ↦ some (row, t') ])
      else none

  -- What the updates set.
  abbrev pub campaign_set : CampaignStatus → ℕ → CampaignRow Uuid → CampaignRow Uuid
  campaign_set status now c = record c { status = status; updated_at = now }

  abbrev pub run_cancelled : ℕ → RunRow Uuid → RunRow Uuid
  run_cancelled now r = record r { status = RunStatus.cancelled; finished_at = some now }

  abbrev pub run_started : ℕ → String → RunRow Uuid → RunRow Uuid
  run_started now worker_id r = record r {
    status = RunStatus.running;
    started_at = some now;
    worker = some worker_id;
  }

  abbrev pub run_finished : ℕ → RunFinish → RunRow Uuid → RunRow Uuid
  run_finished now finish r = record r {
    status = run_status finish.status;
    iterations = finish.iterations;
    log_tail = finish.log_tail;
    finished_at = some now;
  }

  -- The two updates of `cancel_campaign`.
  unfoldable pub cancel_rows : ℕ → Uuid → Tables Uuid → Tables Uuid
  unfolding update_where
  cancel_rows now id t = record t {
    campaigns =
        update_where (λ c. c.id == id) (campaign_set CampaignStatus.cancelled now) t.campaigns;
    runs = update_where (λ r. r.campaign_id == id) (run_cancelled now) t.runs;
  }

  unfoldable pub cancel_campaign :
      ℕ → Uuid → Tables Uuid → Option (CampaignRecord Uuid) × Tables Uuid
  unfolding get_campaign cancel_rows
  cancel_campaign now id t = elim (get_campaign id t) [
    | none ↦ (none, t)
    | some current ↦
        if is_terminal current.status
        then (some current, t)
        else (some (record current { status = CampaignStatus.cancelled }), cancel_rows now id t)
  ]

  -- The rows of `claimable`, before they are ordered.
  unfoldable pub is_claimable : List (RunRow Uuid) → JobRow Uuid → Bool
  unfolding is_pending
  is_claimable [] j = false
  is_claimable (r ∷ runs) j =
      let rest = is_claimable runs j in
      if r.id == j.run_id && is_null j.claimed_by && is_pending r.status then true else rest

  unfoldable pub claim_job : ℕ → String → Tables Uuid → Option (ClaimedJob Uuid) × Tables Uuid
  unfolding is_claimable earliest select_where update_where
  claim_job now worker_id t =
      elim (earliest (λ j. j.created_at) (select_where (is_claimable t.runs) t.jobs)) [
        | none ↦ (none, t)
        | some job ↦ (
          some (record {
            job_id = job.id;
            campaign_id = job.campaign_id;
            run_id = job.run_id;
            attempts = suc job.attempts;
          }),
          record t {
            jobs =
                update_where (λ j. j.id == job.id)
                  (λ j. record j {
                    claimed_by = some worker_id;
                    claimed_at = some now;
                    attempts = suc j.attempts;
                  })
                  t.jobs;
          },
        )
      ]

  abbrev pub is_run_pending : Uuid → RunRow Uuid → Bool
  is_run_pending run_id r = r.id == run_id && is_pending r.status

  unfoldable pub start_run : ℕ → Uuid → String → Tables Uuid → Bool × Tables Uuid
  unfolding is_pending is_queued select_where update_where
  start_run now run_id worker_id t =
      elim (first_row (select_where (is_run_pending run_id) t.runs)) [
        | none ↦ (false, t)
        | some run ↦ (
          true,
          record t {
            runs = update_where (is_run_pending run_id) (run_started now worker_id) t.runs;
            findings = select_where (λ f. not (f.run_id == run_id)) t.findings;
            campaigns =
                update_where (λ c. c.id == run.campaign_id && is_queued c.status)
                  (campaign_set CampaignStatus.running now) t.campaigns;
          },
        )
      ]

  -- The rows of a run's findings; the generated ids come in turn.
  unfoldable pub finding_rows : ℕ → Uuid → List Uuid → List NewFinding → List (FindingRow Uuid)
  finding_rows now run_id [] fs = []
  finding_rows now run_id (id ∷ ids) [] = []
  finding_rows now run_id (id ∷ ids) (f ∷ fs) =
      record { id = id; run_id = run_id; finding = f; created_at = now }
      ∷ finding_rows now run_id ids fs

  abbrev pub is_run_running : Uuid → RunRow Uuid → Bool
  is_run_running run_id r = r.id == run_id && is_running r.status

  unfoldable pub run_exists : Uuid → List (RunRow Uuid) → Bool
  run_exists run_id [] = false
  run_exists run_id (r ∷ runs) = let rest = run_exists run_id runs in r.id == run_id || rest

  -- The statuses are written if the run is still running, the findings in any case.
  unfoldable pub finish_rows : ℕ → Uuid → List Uuid → RunFinish → Tables Uuid → Tables Uuid
  unfolding is_running select_where update_where finding_rows run_status campaign_status
  finish_rows now run_id finding_ids finish t =
      let found = finding_rows now run_id finding_ids finish.findings in
      elim (first_row (select_where (is_run_running run_id) t.runs)) [
        | none ↦ record t { findings = t.findings ++ found }
        | some run ↦ record t {
          runs = update_where (is_run_running run_id) (run_finished now finish) t.runs;
          campaigns =
              update_where (λ c. c.id == run.campaign_id)
                (campaign_set (campaign_status finish.status) now) t.campaigns;
          findings = t.findings ++ found;
        }
      ]

  -- The findings refer to the run by a foreign key.
  unfoldable pub finish_run : ℕ → Uuid → List Uuid → RunFinish → Tables Uuid → Option (Tables Uuid)
  unfolding finish_rows run_exists
  finish_run now run_id finding_ids finish t =
      if is_empty finish.findings || run_exists run_id t.runs
      then some (finish_rows now run_id finding_ids finish t)
      else none
