-- ===== src/Server/Runner/Subprocess.antt =====
-- crates/server/src/runner/subprocess.rs and sandbox.rs: the runner that starts `cargo fuzz` in a
-- sandbox. The process behind the sandbox is a parameter.
pub mod Outcomes
use soro_fuzz.Base.{
  ℕ, Bool, true, false, Option, none, some, List, [], ◌∷◌, ◌++◌, String, concat, display_ℕ,
  unwrap_or, if◌then◌else◌,
}
use soro_fuzz.Base.Results.{Result, ok, err}
use soro_fuzz.Int.{ℤ, pos_part}
use soro_fuzz.Server.Runner.{
  LogLevel, ProgressEvent, RunJob, RunOutcome, RunFinding, RunResult, RunnerError, Runner,
}
use soro_fuzz.Server.Runner.Output.{Regex, ParsedViolation, ParsedRun, parse, tail}

abbrev pub log_tail_chars : ℕ
log_tail_chars = 4000

pub record SandboxOutput : Type 0 where
  pub stdout : String
  pub stderr : String
  pub exit_code : Option ℤ  -- i32
  pub timed_out : Bool

-- The error of the operating system is given by its text.
pub data SandboxError : Type 0 where
  spawn : String → SandboxError

abbrev pub sandbox_error_text : SandboxError → String
sandbox_error_text (spawn e) = concat ("failed to spawn subprocess: " ∷ e ∷ [])

-- `Sandbox::run`: the program, its arguments, the directory and the timeout in seconds.
abbrev pub Sandbox : Type 0
Sandbox = String → List String → String → ℕ → Result SandboxError SandboxOutput

-- What a sandbox makes of a program: the command that is started with a timeout, in a directory if
-- one is set.
pub record Command : Type 0 where
  pub program : String
  pub args : List String
  pub current_dir : Option String

abbrev pub RunWithTimeout : Type 0
RunWithTimeout = Command → ℕ → Result SandboxError SandboxOutput

unfoldable pub local_sandbox : RunWithTimeout → Sandbox
local_sandbox run_with_timeout program args cwd timeout =
    run_with_timeout (record { program = program; args = args; current_dir = some cwd }) timeout

unfoldable pub docker_exec_sandbox : RunWithTimeout → String → Sandbox
docker_exec_sandbox run_with_timeout container program args cwd timeout =
    run_with_timeout
      (record {
        program = "docker";
        args = "exec" ∷ "-w" ∷ cwd ∷ container ∷ program ∷ args;
        current_dir = none;
      })
      timeout

pub record SubprocessRunner : Type 0 where
  pub sandbox : Sandbox
  pub fuzz_workspace_dir : String
  pub rust_toolchain : String
  pub fuzz_sanitizer : Option String
  pub job_timeout : ℕ  -- seconds

-- `args.join(" ")`
unfoldable pub join_words : List String → String
join_words [] = ""
join_words (w ∷ []) = w
join_words (w ∷ v ∷ ws) = concat (w ∷ " " ∷ join_words (v ∷ ws) ∷ [])

unfoldable pub started_event : List String → ProgressEvent
unfolding join_words
started_event args = ProgressEvent.log (concat ("cargo " ∷ join_words args ∷ [])) LogLevel.info

unfoldable pub finding_event : ParsedViolation → ProgressEvent
finding_event violation = ProgressEvent.finding violation.invariant (pos_part violation.step_index)

unfoldable pub run_finding : Option String → ParsedViolation → RunFinding
run_finding artifact_path violation = record {
  invariant = violation.invariant;
  message = violation.message;
  step_index = violation.step_index;
  sequence = [];
  shrunk_input = none;
  artifact_path = unwrap_or artifact_path "";
}

module _ {Uuid : Type 0} where
  unfoldable pub build_args : SubprocessRunner → RunJob Uuid → List String
  build_args self job =
      concat ("+" ∷ self.rust_toolchain ∷ [])
      ∷ "fuzz"
      ∷ "run"
      ∷ (elim self.fuzz_sanitizer [
        | none ↦ []
        | some sanitizer ↦ concat ("--sanitizer=" ∷ sanitizer ∷ []) ∷ []
      ]
          ++ job.fuzz_target_name
            ∷ "--"
            ∷ concat ("-max_total_time=" ∷ display_ℕ job.time_budget_secs ∷ [])
            ∷ [])

  module _ (regex : Regex) (self : SubprocessRunner) where
    -- What the runner makes of the output of a process, if it was not killed.
    unfoldable pub finished :
        RunJob Uuid → String → Option ℤ → Bool → List ProgressEvent × Result RunnerError RunResult
    unfolding parse tail finding_event run_finding
    finished job combined exit_code timed_out =
        let parsed = parse regex combined exit_code timed_out in
        let (events, findings) : (List ProgressEvent × List RunFinding) = elim parsed.finding [
          | none ↦ ([], [])
          | some violation ↦
              (finding_event violation ∷ [], run_finding parsed.artifact_path violation ∷ [])
        ] in
        (
          ProgressEvent.iterations (pos_part parsed.iterations) job.time_budget_secs ∷ events,
          ok (record {
            outcome = RunOutcome.completed;
            iterations = parsed.iterations;
            findings = findings;
            log_tail = some (tail combined log_tail_chars);
          }),
        )

    unfoldable pub run : Runner Uuid
    unfolding build_args started_event finished tail
    run job =
        let args = build_args self job in
        let started = started_event args in
        elim (self.sandbox "cargo" args self.fuzz_workspace_dir self.job_timeout) [
          | err e ↦ (started ∷ [], err (RunnerError.failed (sandbox_error_text e)))
          | ok output ↦
              let combined = concat (output.stdout ∷ "\n" ∷ output.stderr ∷ []) in
              let (events, result) = finished job combined output.exit_code output.timed_out in
              if output.timed_out
              then (
                started ∷ [],
                err (
                    RunnerError.failed (
                      concat (
                        "sandbox timeout ("
                        ∷ display_ℕ self.job_timeout
                        ∷ "s) exceeded before `cargo fuzz run` finished; tail: "
                        ∷ tail combined log_tail_chars
                        ∷ []))),
              )
              else (started ∷ events, result)
        ]
