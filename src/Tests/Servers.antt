-- ===== src/Tests/Servers.antt =====
-- The theorems on the targets, the workers and the API at concrete inputs, with numbers for ids and
-- senders.
use soro_fuzz.Base.{
  ℕ, ◌+◌, ◌≤◌, ◌≡◌, refl, true, false, none, some, [], ◌∷◌, String, string_eq, nat_eq, arith, inl,
  ◌⊎◌,
}
use soro_fuzz.Base.Results.{ok}
use soro_fuzz.Int.{pos}
use soro_fuzz.Server.Store.Tables.{JobRow, Tables, select_where}
use soro_fuzz.Server.Store.Operations
use soro_fuzz.Server.Store.Operations.{is_claimable, start_run}
use soro_fuzz.Server.Store.Operations.Lists.{IsIn}
use soro_fuzz.Server.Store.Operations.Runs.{IsEnded, same}
use soro_fuzz.Server.Store.Operations.Queue.{claimable}
use soro_fuzz.Server.Store.Postgres.{Database, Surroundings, pg_store, start, finish}
use soro_fuzz.Server.Targets.{TargetRegistry, from_targets, list, get}
use soro_fuzz.Server.Targets.Registry.{IsManifest, named, from_targets_lem}
use soro_fuzz.Server.Runner
use soro_fuzz.Server.Runner.{ProgressEvent}
use soro_fuzz.Server.Worker.{World, Worker, process, run_loop}
use soro_fuzz.Server.Worker.Ends.{WasGranted, WasSkipped, process_publishes}
use soro_fuzz.Server.Worker.Lives.{on_database, process_ends}
use soro_fuzz.Server.Worker.Drains.{run_loop_drains}
use soro_fuzz.Tests.Stores.{counter_target, one_campaign, queued_record}

abbrev pub quiet : Surroundings ℕ
quiet = record {
  clock = λ n. n;
  gen_random_uuid = λ n. n + 100;
  others = λ n t. t;
  list_error = λ filter n. none;
}

abbrev pub database_of : Tables ℕ → Database ℕ
database_of t = record { tables = t; transactions = 0; generated = 0 }

abbrev pub registry : TargetRegistry
registry = record { by_id = ("counter", counter_target) ∷ []; order = "counter" ∷ [] }

abbrev finds_nothing : Runner.Runner ℕ
finds_nothing job = (
  ProgressEvent.iterations 500 60 ∷ [],
  ok (record {
    outcome = Runner.RunOutcome.completed;
    iterations = pos 500;
    findings = [];
    log_tail = none;
  }),
)

abbrev worker : Worker (Database ℕ) ℕ ℕ
worker = record {
  id = "worker-1-0";
  store = pg_store quiet;
  runner = finds_nothing;
  targets = registry;
  channel = λ n capacity. n;
  fuzz_sanitizer = none;
}

abbrev world : World (Database ℕ) ℕ ℕ
world = record {
  state = database_of one_campaign;
  progress = record { channels = []; created = 0 };
  sent = [];
}

from_targets_lem_example :
    (IsManifest (counter_target ∷ [])
      → (r : TargetRegistry) × (from_targets {IoError = ℕ} {JsonError = ℕ} (counter_target ∷ [])
          ≡ ok r)
        × (list r ≡ counter_target ∷ [])
        × ((id : String) → get id r ≡ named id (counter_target ∷ [])))
    × ((r : TargetRegistry)
        → from_targets {IoError = ℕ} {JsonError = ℕ} (counter_target ∷ []) ≡ ok r
        → IsManifest (counter_target ∷ []))
from_targets_lem_example = from_targets_lem (counter_target ∷ [])

process_publishes_example :
    WasGranted worker 1 2 world (process worker 1 2 world)
    ⊎ WasSkipped worker 1 2 world (process worker 1 2 world)
process_publishes_example = process_publishes worker 1 2 world

found : Operations.get_campaign 1 one_campaign ≡ some queued_record
unfolding Operations.get_campaign Operations.insert_rows Operations.campaigns_with_runs
    Operations.with_runs select_where
found = refl

pub served : get "counter" registry ≡ some counter_target
unfolding get
served = refl

began : (start_run 1 2 "worker-1-0" one_campaign).0 ≡ true
unfolding start_run Operations.insert_rows
began = refl

process_ends_example : IsEnded 2 (process worker 1 2 world).state.tables.runs
process_ends_example =
    process_ends quiet (λ n t. same) worker 1 2 world queued_record counter_target found served
      began

-- The job, once the worker has claimed it.
abbrev taken : JobRow ℕ
taken = record {
  id = 3;
  campaign_id = 1;
  run_id = 2;
  claimed_by = some "worker-1-0";
  claimed_at = some 0;
  attempts = 1;
  created_at = 10;
}

one_claimable : claimable one_campaign ≤ 1
unfolding claimable is_claimable Operations.insert_rows select_where
one_claimable = omega arith

still_there : IsIn taken (run_loop 1 (on_database quiet worker) world).state.tables.jobs
unfolding run_loop Operations.claim_job Operations.get_campaign Operations.start_run
    Operations.finish_run start finish Operations.insert_rows
still_there = inl refl

run_loop_drains_example :
    is_claimable (run_loop 1 (on_database quiet worker) world).state.tables.runs taken ≡ false
run_loop_drains_example =
    run_loop_drains quiet (λ n t. omega arith) worker 1 world one_claimable taken still_there
