-- ===== src/Server/Runner.antt =====
-- crates/server/src/runner/mod.rs and runner/progress.rs: what a worker hands to a runner, what the
-- runner reports while it runs, and what it returns.
pub mod Mock
pub mod Output
pub mod Subprocess
use soro_fuzz.Base.{ℕ, List, Option, String}
use soro_fuzz.Base.Results.{Result}
use soro_fuzz.Int.{ℤ}
use soro_fuzz.Server.Store.{FindingStep, RunStatus}

pub data LogLevel : Type 0 where
  info warn error : LogLevel

pub data ProgressEvent : Type 0 where
  iterations : ℕ → ℕ → ProgressEvent  -- count, elapsed_secs
  log : String → LogLevel → ProgressEvent
  finding : String → ℕ → ProgressEvent  -- invariant, step_index
  status : RunStatus → ProgressEvent

pub record RunJob (Uuid : Type 0) : Type 0 where
  pub run_id : Uuid
  pub campaign_id : Uuid
  pub fuzz_target_name : String
  pub invariant_ids : List String
  pub time_budget_secs : ℕ  -- u32

pub data RunOutcome : Type 0 where
  completed cancelled : RunOutcome

pub record RunFinding : Type 0 where
  pub invariant : String
  pub message : String
  pub step_index : ℤ  -- i32
  pub sequence : List FindingStep
  pub shrunk_input : Option (List ℕ)
  pub artifact_path : String

pub record RunResult : Type 0 where
  pub outcome : RunOutcome
  pub iterations : ℤ  -- i64
  pub findings : List RunFinding
  pub log_tail : Option String

pub data RunnerError : Type 0 where
  failed : String → RunnerError

-- `Runner::run`: the events it emits in turn, and its result.
abbrev pub Runner : Type 0 → Type 0
Runner Uuid = RunJob Uuid → List ProgressEvent × Result RunnerError RunResult
