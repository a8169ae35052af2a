-- ===== src/Server/Runner/Subprocess/Outcomes.antt =====
-- What the runner of crates/server/src/runner/subprocess.rs reports of a process that was run.
use soro_fuzz.Base.{
  ℕ, ◌≤◌, ◌≡◌, ◌≢◌, refl, true, false, ◌⊎◌, inl, inr, Bool-cases, Option, none, some, List, [], ◌∷◌,
  map, length, leb, String, concat, arith,
}
use soro_fuzz.Base.Results.{Result, ok, err}
use soro_fuzz.Base.Parse.{byte_length, trim_bytes}
use soro_fuzz.Int.{ℤ, pos, pos_part, beq_ℤ, beq_ℤ_iff}
use soro_fuzz.Server.Runner.{ProgressEvent, RunJob, RunOutcome, RunFinding, RunResult, RunnerError}
use soro_fuzz.Server.Runner.Output.{Regex, parse, tail, last_bytes}
use soro_fuzz.Server.Runner.Subprocess.{
  SandboxOutput, SubprocessRunner, build_args, started_event, finished, run,
}

last_bytes_le : (n : ℕ) (s : String) → byte_length (last_bytes n s) ≤ n
unfolding last_bytes byte_length
last_bytes_le n String.[] = omega arith
last_bytes_le n (String.◌∷◌ c s) = elim (Bool-cases (leb (byte_length (String.◌∷◌ c s)) n)) [
  | inl fits ↦ rw fits (ground (arith, fits))
  | inr over ↦ rw over (last_bytes_le n s)
]

tail_le : (text : String) (n : ℕ) → byte_length (tail text n) ≤ n
unfolding tail
tail_le text n = elim (Bool-cases (leb (byte_length text) n)) [
  | inl fits ↦ rw fits (ground (arith, fits, trim_bytes text))
  | inr over ↦ rw over (omega (arith, trim_bytes (last_bytes n text), last_bytes_le n text))
]

-- A finding for a process that exited with another code than 0, and none otherwise.
abbrev pub Reported : Option ℤ → List RunFinding → Type 0
Reported none findings = findings ≡ []
Reported (some code) findings =
    ((code ≡ pos 0) × (findings ≡ [])) ⊎ ((code ≢ pos 0) × (length findings ≡ 1))

abbrev pub event_of : RunFinding → ProgressEvent
event_of f = ProgressEvent.finding f.invariant (pos_part f.step_index)

-- What the runner answers for a process that was not killed.
abbrev pub IsReport : Option ℤ → ℕ → List ProgressEvent × Result RunnerError RunResult → Type 0
IsReport exit_code budget (events, err e) = ⊥
IsReport exit_code budget (events, ok r) =
    (r.outcome ≡ RunOutcome.completed)
    × Reported exit_code r.findings
    × (events ≡ ProgressEvent.iterations (pos_part r.iterations) budget ∷ map event_of r.findings)
    × ((text : String) × (r.log_tail ≡ some text) × (byte_length text ≤ 4000))

-- An error, and no event but that of the start.
abbrev pub IsFailure : List String → List ProgressEvent × Result RunnerError RunResult → Type 0
IsFailure args (events, ok r) = ⊥
IsFailure args (events, err e) = events ≡ started_event args ∷ []

module _ {Uuid : Type 0} (regex : Regex) (self : SubprocessRunner) where
  finished-IsReport :
      (job : RunJob Uuid) (combined : String) (exit_code : Option ℤ)
      → IsReport exit_code job.time_budget_secs (finished regex self job combined exit_code false)
  unfolding finished parse
  finished-IsReport job combined none =
      (refl, refl, refl, (tail combined 4000, refl, tail_le combined 4000))
  finished-IsReport job combined (some code) = elim (Bool-cases (beq_ℤ code (pos 0))) [
    | inl zero_ ↦ rw zero_ (
      refl,
      inl ((beq_ℤ_iff code (pos 0)).0 zero_, refl),
      refl,
      (tail combined 4000, refl, tail_le combined 4000),
    )
    | inr other ↦ rw other (
      refl,
      inr (λ same. ground (arith, other, (beq_ℤ_iff code (pos 0)).1 same), refl),
      refl,
      (tail combined 4000, refl, tail_le combined 4000),
    )
  ]

  -- When the sandbox has run the process: if it was killed at the timeout, the runner answers an
  -- error and reports nothing but the start. Otherwise the run is completed; a process that exited
  -- with another code than 0 makes one finding, and any other none; the events are the start, the
  -- iterations and the findings that are returned; and the tail of the log has 4000 bytes at most.
  pub run_reports :
      (job : RunJob Uuid) (output : SandboxOutput)
      → self.sandbox "cargo" (build_args self job) self.fuzz_workspace_dir self.job_timeout
        ≡ ok output
      → (output.timed_out ≡ true → IsFailure (build_args self job) (run regex self job))
        × (output.timed_out ≡ false
            → (events : List ProgressEvent) × (result : Result RunnerError RunResult) × (run regex
                  self job
                ≡ (started_event (build_args self job) ∷ events, result))
              × IsReport output.exit_code job.time_budget_secs (events, result))
  unfolding run
  run_reports job output answered =
      let combined = concat (output.stdout ∷ "\n" ∷ output.stderr ∷ []) in
      let made = finished regex self job combined output.exit_code false in
      (
        λ killed. rw (answered, run) (rw killed refl),
        λ ran. (
          made.0,
          made.1,
          rw (answered, run) (rw ran refl),
          finished-IsReport job combined output.exit_code,
        ),
      )
