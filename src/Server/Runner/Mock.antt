-- ===== src/Server/Runner/Mock.antt =====
-- crates/server/src/runner/mock.rs: the runner of the worker's tests, with a canned result.
use soro_fuzz.Base.{List, [], ◌∷◌, some, String, map}
use soro_fuzz.Base.Results.{Result, ok, err}
use soro_fuzz.Int.{ℤ, pos, pos_part}
use soro_fuzz.Server.Store.{RunStatus}
use soro_fuzz.Server.Runner.{ProgressEvent, RunFinding, RunOutcome, RunResult, RunnerError, Runner}

data Behavior : Type 0 where
  succeed : ℤ → List RunFinding → Behavior  -- iterations, findings
  cancel : ℤ → Behavior
  fail : String → Behavior

record MockRunner : Type 0 where
  behavior : Behavior

abbrev always_succeeds : MockRunner
always_succeeds = record { behavior = succeed (pos 0) [] }

abbrev succeeds_with : ℤ → List RunFinding → MockRunner
succeeds_with iterations findings = record { behavior = succeed iterations findings }

abbrev always_fails : String → MockRunner
always_fails message = record { behavior = fail message }

abbrev cancelled_after : ℤ → MockRunner
cancelled_after iterations = record { behavior = cancel iterations }

abbrev found_event : RunFinding → ProgressEvent
found_event f = ProgressEvent.finding f.invariant (pos_part f.step_index)

unfoldable behave : Behavior → List ProgressEvent × Result RunnerError RunResult
behave (succeed iterations findings) = (
  ProgressEvent.iterations (pos_part iterations) 0 ∷ map found_event findings,
  ok (record {
    outcome = RunOutcome.completed;
    iterations = iterations;
    findings = findings;
    log_tail = some "mock runner: completed";
  }),
)
behave (cancel iterations) = (
  [],
  ok (record {
    outcome = RunOutcome.cancelled;
    iterations = iterations;
    findings = [];
    log_tail = some "mock runner: cancelled";
  }),
)
behave (fail message) = ([], err (RunnerError.failed message))

unfoldable mock_run : {Uuid : Type 0} → MockRunner → Runner Uuid
unfolding behave
mock_run self job =
    let (events, result) = behave self.behavior in
    (ProgressEvent.status RunStatus.running ∷ events, result)
