-- ===== src/Tests/Processes.antt =====
-- The theorems on the runner and the configuration of crates/server at concrete inputs.
use soro_fuzz.Base.{ℕ, ◌≡◌, ◌↔◌, refl, Bool, true, false, none, some, List, [], ◌∷◌}
use soro_fuzz.Base.Results.{Result, ok}
use soro_fuzz.Int.{pos}
use soro_fuzz.Server.Runner.{ProgressEvent, RunJob, RunResult, RunnerError}
use soro_fuzz.Server.Runner.Output.{Regex}
use soro_fuzz.Server.Runner.Subprocess.{
  SandboxOutput, SubprocessRunner, build_args, started_event, run,
}
use soro_fuzz.Server.Runner.Subprocess.Outcomes.{IsFailure, IsReport, run_reports}
use soro_fuzz.Server.Config.{docker_exec, parse_sandbox}
use soro_fuzz.Server.Config.Sandbox.{sandbox_text, HasContainer, parse_sandbox-sandbox_text}

-- A library that finds no match.
abbrev pub no_match : Regex
no_match = record { captures = λ re text. none; captures_iter = λ re text. [] }

abbrev pub crash : SandboxOutput
crash = record { stdout = ""; stderr = "panicked"; exit_code = some (pos 77); timed_out = false }

abbrev crashing : SubprocessRunner
crashing = record {
  sandbox = λ program args cwd timeout. ok crash;
  fuzz_workspace_dir = "fuzz";
  rust_toolchain = "nightly";
  fuzz_sanitizer = none;
  job_timeout = 600;
}

abbrev job : RunJob ℕ
job = record {
  run_id = 2;
  campaign_id = 1;
  fuzz_target_name = "counter_fuzz";
  invariant_ids = [];
  time_budget_secs = 60;
}

run_reports_example :
    (◌≡◌ {A = Bool} false true → IsFailure (build_args crashing job) (run no_match crashing job))
    × (◌≡◌ {A = Bool} false false
        → (events : List ProgressEvent) × (result : Result RunnerError RunResult) × (run no_match
              crashing job
            ≡ (started_event (build_args crashing job) ∷ events, result))
          × IsReport (some (pos 77)) 60 (events, result))
run_reports_example = run_reports no_match crashing job crash refl

parse_sandbox-sandbox_text_example :
    (parse_sandbox "docker-exec:toolchain" ≡ ok (docker_exec "toolchain")) ↔ (
      ("docker-exec:toolchain" ≡ sandbox_text (docker_exec "toolchain"))
      × HasContainer (docker_exec "toolchain"))
parse_sandbox-sandbox_text_example =
    parse_sandbox-sandbox_text "docker-exec:toolchain" (docker_exec "toolchain")
