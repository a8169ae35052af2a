-- ===== src/Tests/Stores.antt =====
-- The store's theorems on small tables, with numbers for ids.
use soro_fuzz.Base.{
  List, take, arith, ℕ, ◌≤◌, ◌≡◌, ◌≢◌, refl, none, some, [], ◌∷◌, true, false, nat_eq, string_eq,
  inl,
}
use soro_fuzz.Int.{pos}
use soro_fuzz.Server.Targets.{Target}
use soro_fuzz.Server.Store.{
  CampaignStatus, is_terminal, RunStatus, RunFinishStatus, RunFinish, NewCampaign, CampaignRecord,
  ClaimedJob,
}
use soro_fuzz.Server.Store.Tables.{RunRow, JobRow, Tables, select_where, earliest, update_where}
use soro_fuzz.Server.Store.Operations.{
  is_null, start_run, finish_rows, finish_run, is_running, run_finished, is_pending, is_claimable,
  get_campaign, insert_rows, create_campaign, with_runs, campaigns_with_runs, cancel_rows,
  run_cancelled, cancel_campaign, claim_job,
}
use soro_fuzz.Server.Store.Operations.Lists.{IsIn}
use soro_fuzz.Server.Store.Operations.Mirror.{Consistent}
use soro_fuzz.Server.Store.Operations.Reachable.{
  Reachable, fresh, after, creates, cancels, starts, empty_tables, Reachable-Consistent,
}
use soro_fuzz.Server.Store.Operations.Outcomes.{IsOver, over_stays}
use soro_fuzz.Server.Store.Operations.Overlap.{cancel_rows_overwrites}
use soro_fuzz.Server.Store.Operations.Claims.{claim_job_oldest, claim_job_once}
use soro_fuzz.Server.Store.Reads.{CampaignFilter, skip, list_campaigns}
use soro_fuzz.Server.Store.Reads.Pages.{IsNewestFirst, IsListing, list_campaigns_page}

abbrev pub input : NewCampaign
input = record {
  target_id = "counter";
  name = "nightly";
  invariant_ids = [];
  time_budget_secs = pos 60;
}

abbrev pub counter_target : Target
counter_target = record {
  id = "counter";
  name = "Counter";
  contract_name = "counter";
  methods = [];
  available_invariants = [];
  fuzz_target_name = "counter_fuzz";
  known_buggy = false;
}

abbrev pub no_campaigns : Tables ℕ
no_campaigns = empty_tables (counter_target ∷ [])

abbrev pub one_campaign : Tables ℕ
one_campaign = insert_rows 10 1 2 3 input no_campaigns

abbrev pub queued_record : CampaignRecord ℕ
queued_record = record {
  id = 1;
  target_id = "counter";
  name = "nightly";
  invariant_ids = [];
  time_budget_secs = pos 60;
  status = CampaignStatus.queued;
  run_id = 2;
  created_at = 10;
}

created : create_campaign 10 1 2 3 input no_campaigns ≡ some (queued_record, one_campaign)
unfolding create_campaign insert_rows get_campaign select_where campaigns_with_runs with_runs
created = refl

pub Reachable-one_campaign : Reachable one_campaign
Reachable-one_campaign =
    after (fresh (counter_target ∷ []))
      (creates 10 1 2 3 input queued_record ((λ c h. absurd h), (λ r h. absurd h)) created)

abbrev cancelled_once : Tables ℕ
cancelled_once = (cancel_campaign 20 1 one_campaign).1

Reachable-cancelled_once : Reachable cancelled_once
Reachable-cancelled_once = after Reachable-one_campaign (cancels 20 1)

Reachable-Consistent_example : Consistent cancelled_once
Reachable-Consistent_example = Reachable-Consistent Reachable-cancelled_once

abbrev cancelled_run : RunRow ℕ
cancelled_run = record {
  id = 2;
  campaign_id = 1;
  status = RunStatus.cancelled;
  iterations = pos 0;
  started_at = none;
  finished_at = some 20;
  worker = none;
  log_tail = none;
}

IsIn-cancelled_run : IsIn cancelled_run cancelled_once.runs
unfolding cancel_campaign cancel_rows insert_rows get_campaign select_where campaigns_with_runs
    with_runs update_where is_terminal
IsIn-cancelled_run = inl refl

over_stays_example : IsIn cancelled_run (cancel_campaign 30 1 cancelled_once).1.runs
over_stays_example =
    over_stays Reachable-cancelled_once (cancels 30 1) cancelled_run IsIn-cancelled_run tt

abbrev one_running : Tables ℕ
one_running = (start_run 11 2 "worker-1-0" one_campaign).1

abbrev running_run : RunRow ℕ
running_run = record {
  id = 2;
  campaign_id = 1;
  status = RunStatus.running;
  iterations = pos 0;
  started_at = some 11;
  finished_at = none;
  worker = some "worker-1-0";
  log_tail = none;
}

abbrev all_done : RunFinish
all_done = record {
  status = RunFinishStatus.completed;
  iterations = pos 500;
  log_tail = none;
  findings = [];
}

abbrev one_finished : Tables ℕ
one_finished = finish_rows 12 2 [] all_done one_running

IsIn-running_run : IsIn running_run one_running.runs
unfolding start_run insert_rows select_where update_where
IsIn-running_run = inl refl

finishes_run : finish_run 12 2 [] all_done one_running ≡ some one_finished
unfolding finish_run
finishes_run = refl

is_run_running_run : is_running RunStatus.running ≡ true
unfolding is_running
is_run_running_run = refl

cancel_rows_overwrites_example :
    ((current : CampaignRecord ℕ) × (get_campaign 1 one_running ≡ some current)
      × (is_terminal current.status ≡ false))
    × ((cancel_campaign 13 1 one_running).1 ≡ cancel_rows 13 1 one_running)
    × IsOver (run_finished 12 all_done running_run).status
    × IsIn (run_finished 12 all_done running_run) one_finished.runs
    × IsIn
        (run_cancelled 13 (run_finished 12 all_done running_run))
        (cancel_rows 13 1 one_finished).runs
    × IsIn (run_finished 12 all_done running_run) (cancel_campaign 13 1 one_finished).1.runs
cancel_rows_overwrites_example =
    cancel_rows_overwrites 12 13 [] all_done running_run
      (after Reachable-one_campaign (starts 11 2 "worker-1-0")) IsIn-running_run is_run_running_run
      finishes_run

abbrev two_jobs : Tables ℕ
two_jobs = insert_rows 11 4 5 6 input one_campaign

abbrev first_job : ClaimedJob ℕ
first_job = record { job_id = 3; campaign_id = 1; run_id = 2; attempts = 1 }

abbrev second_job : ClaimedJob ℕ
second_job = record { job_id = 6; campaign_id = 4; run_id = 5; attempts = 1 }

first_claim : (claim_job 12 "worker-1-0" two_jobs).0 ≡ some first_job
unfolding claim_job insert_rows is_claimable is_pending earliest select_where
first_claim = refl

second_claim :
    (claim_job 13 "worker-1-1" (claim_job 12 "worker-1-0" two_jobs).1).0 ≡ some second_job
unfolding claim_job insert_rows is_claimable is_pending earliest select_where update_where
second_claim = refl

claim_job_once_example : second_job.job_id ≢ first_job.job_id
claim_job_once_example =
    claim_job_once 12 13 "worker-1-0" "worker-1-1" two_jobs first_job second_job first_claim
      second_claim

claim_job_oldest_example :
    ((j : ClaimedJob ℕ)
      → (claim_job 12 "worker-1-0" two_jobs).0 ≡ some j
      → (row : JobRow ℕ) × IsIn row two_jobs.jobs
        × (row.id ≡ j.job_id)
        × (is_null row.claimed_by ≡ true)
        × ((r : RunRow ℕ) × IsIn r two_jobs.runs
            × (r.id ≡ j.run_id)
            × (r.status ≡ RunStatus.pending))
        × ((y : JobRow ℕ)
            → IsIn y two_jobs.jobs
            → is_claimable two_jobs.runs y ≡ true
            → row.created_at ≤ y.created_at))
    × ((claim_job 12 "worker-1-0" two_jobs).0 ≡ none
        → (y : JobRow ℕ) → IsIn y two_jobs.jobs
        → is_claimable two_jobs.runs y ≡ false)
claim_job_oldest_example = claim_job_oldest 12 "worker-1-0" two_jobs

abbrev any_campaign : CampaignFilter
any_campaign = record {
  status = none;
  target_id = none;
  since = none;
  until = none;
  limit = pos 1;
  offset = pos 0;
}

list_campaigns_page_example :
    (listed : List (CampaignRecord ℕ)) × IsNewestFirst listed
    × IsListing any_campaign (campaigns_with_runs two_jobs.campaigns two_jobs.runs) listed
    × (list_campaigns any_campaign two_jobs ≡ some (take 1 (skip 0 listed)))
list_campaigns_page_example = list_campaigns_page any_campaign two_jobs (omega arith) (omega arith)
