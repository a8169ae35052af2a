-- ===== src/Server/Worker.antt =====
-- crates/server/src/worker/mod.rs: a worker claims jobs, runs them through a runner and stores the
-- results. What it does is written as a function on the store's state, the hub and the events sent.
pub mod Hub
pub mod Ends
pub mod Lives
pub mod Drains
use soro_fuzz.Base.{
  ℕ, zero, suc, Bool, true, false, Option, none, some, List, [], ◌∷◌, ◌++◌, map, String, concat,
  string_eq, Eq, ◌==◌, if◌then◌else◌,
}
use soro_fuzz.Base.Results.{Result, ok, err}
use soro_fuzz.Int
use soro_fuzz.Server.Store.{
  RunStatus, RunFinishStatus, run_status, NewFinding, RunFinish, CampaignRecord, ClaimedJob,
}
use soro_fuzz.Server.Store.Interface.{Store}
use soro_fuzz.Server.Targets.{Target, TargetRegistry, get}
use soro_fuzz.Server.Runner
use soro_fuzz.Server.Runner.{ProgressEvent, RunJob, RunOutcome, RunFinding, RunResult, RunnerError}
use soro_fuzz.Server.Worker.Hub.{ProgressHub, publisher, close}

-- What the worker shares with the other parts: the store's state, the hub, and every event that was
-- sent, with its channel, in the order of sending.
pub record World (S Uuid Sender : Type 0) : Type 0 where
  pub state : S
  pub progress : ProgressHub Uuid Sender
  pub sent : List (Sender × ProgressEvent)

pub record Worker (S Uuid Sender : Type 0) : Type 0 where
  pub id : String
  pub store : Store S Uuid
  pub runner : Runner.Runner Uuid
  pub targets : TargetRegistry
  pub channel : ℕ → ℕ → Sender
  pub fuzz_sanitizer : Option String

-- `fuzz_sanitizer.as_deref() == Some("thread")`
unfoldable pub is_thread : Option String → Bool
is_thread none = false
is_thread (some s) = s == "thread"

unfoldable pub to_new_finding : Option String → String → RunFinding → NewFinding
unfolding is_thread
to_new_finding fuzz_sanitizer fuzz_target_name finding = record {
  invariant = finding.invariant;
  message = finding.message;
  step_index = finding.step_index;
  sequence = finding.sequence;
  shrunk_input = finding.shrunk_input;
  fuzz_target_name = fuzz_target_name;
  artifact_path = finding.artifact_path;
  requires_sanitizer_thread = is_thread fuzz_sanitizer;
}

abbrev pub finish_status : RunOutcome → RunFinishStatus
finish_status RunOutcome.completed = RunFinishStatus.completed
finish_status RunOutcome.cancelled = RunFinishStatus.cancelled

-- `RunnerError`'s text
abbrev pub error_text : RunnerError → String
error_text (RunnerError.failed message) = concat ("runner failed: " ∷ message ∷ [])

-- What is stored of a runner's result.
unfoldable pub to_finish : Option String → String → Result RunnerError RunResult → RunFinish
unfolding to_new_finding
to_finish fuzz_sanitizer fuzz_target_name (ok result) = record {
  status = finish_status result.outcome;
  iterations = result.iterations;
  log_tail = result.log_tail;
  findings = map (to_new_finding fuzz_sanitizer fuzz_target_name) result.findings;
}
to_finish fuzz_sanitizer fuzz_target_name (err error) = record {
  status = RunFinishStatus.failed;
  iterations = Int.pos 0;
  log_tail = some (error_text error);
  findings = [];
}

-- `time_budget_secs.max(0) as u32`
abbrev pub budget : Int.ℤ → ℕ
budget secs = Int.pos_part secs

module _ {S Uuid Sender : Type 0} ⦃e : Eq Uuid⦄ where
  -- `process`, once the run is started: the run is published, executed and stored.
  unfoldable pub execute :
      Worker S Uuid Sender
      → Uuid
      → Uuid
      → CampaignRecord Uuid
      → Target
      → World S Uuid Sender
      → World S Uuid Sender
  unfolding publisher close to_finish
  execute worker campaign_id run_id campaign target w =
      let (sender, hub) = publisher worker.channel run_id w.progress in
      let (events, outcome) = worker.runner (record {
        run_id = run_id;
        campaign_id = campaign_id;
        fuzz_target_name = target.fuzz_target_name;
        invariant_ids = campaign.invariant_ids;
        time_budget_secs = budget campaign.time_budget_secs;
      }) in
      let finish = to_finish worker.fuzz_sanitizer target.fuzz_target_name outcome in
      let (stored, state) = worker.store.finish_run run_id finish w.state in
      record {
        state = state;
        progress = close run_id hub;
        sent =
            w.sent
            ++ map (λ event. (sender, event))
                (ProgressEvent.status RunStatus.running
                  ∷ (events ++ ProgressEvent.status (run_status finish.status) ∷ []));
      }

  -- `process` from the call of `start_run` on.
  unfoldable pub begin :
      Worker S Uuid Sender
      → Uuid
      → Uuid
      → CampaignRecord Uuid
      → Target
      → World S Uuid Sender
      → World S Uuid Sender
  unfolding execute
  begin worker campaign_id run_id campaign target w =
      let (started, state) = worker.store.start_run run_id worker.id w.state in
      elim started [
        | err error ↦ record w { state = state }
        | ok run_it ↦
            if run_it
            then execute worker campaign_id run_id campaign target (record w { state = state })
            else record w { state = state }
      ]

  unfoldable pub process :
      Worker S Uuid Sender → Uuid → Uuid → World S Uuid Sender → World S Uuid Sender
  unfolding begin get
  process worker campaign_id run_id w =
      let (found, state) = worker.store.get_campaign campaign_id w.state in
      elim found [
        | err error ↦ record w { state = state }
        | ok row ↦ elim row [
          | none ↦ record w { state = state }
          | some campaign ↦ elim (get campaign.target_id worker.targets) [
            | none ↦ record w { state = state }
            | some target ↦
                begin worker campaign_id run_id campaign target (record w { state = state })
          ]
        ]
      ]

  -- One round of `run_loop`; a round that claims nothing sleeps.
  unfoldable pub round : Worker S Uuid Sender → World S Uuid Sender → World S Uuid Sender
  unfolding process
  round worker w =
      let (claimed, state) = worker.store.claim_job worker.id w.state in
      elim claimed [
        | err error ↦ record w { state = state }
        | ok job ↦ elim job [
          | none ↦ record w { state = state }
          | some job ↦ process worker job.campaign_id job.run_id (record w { state = state })
        ]
      ]

  -- The first rounds of `run_loop`, which has no end.
  unfoldable pub run_loop : ℕ → Worker S Uuid Sender → World S Uuid Sender → World S Uuid Sender
  unfolding round
  run_loop zero worker w = w
  run_loop (suc n) worker w = run_loop n worker (round worker w)
