-- ===== src/Tests/Contracts.antt =====
-- Runs and calls of the contracts of examples/ on the small host.
use soro_fuzz.Base.{
  min, take, ℕ, ◌≡◌, refl, ◌<◌, ◌≤◌, ◌↔◌, ◌⊎◌, inl, Bool, true, none, some, List, [], ◌∷◌, nat_eq,
  ◌==◌,
}
use soro_fuzz.Int.{ℤ, pos}
use soro_fuzz.Core.Auth.{AuthSelection}
use soro_fuzz.Core.Command.{Run}
use soro_fuzz.Core.Harness.{completed, violated, run}
use soro_fuzz.Tests.{host_of}
use soro_fuzz.Examples.Counter
use soro_fuzz.Examples.Counter.Harness
use soro_fuzz.Examples.Counter.Broken
use soro_fuzz.Examples.Counter.Caught.{
  incrementing, divergence, broken_run_violated, broken_value_matches_model-IsHonest,
}
use soro_fuzz.Core.Harness.Findings.{IsNamed, run_violated}
use soro_fuzz.Examples.Counter.Clean
use soro_fuzz.Examples.Counter.Clean.{counter_run_completed}
use soro_fuzz.Examples.Escrow
use soro_fuzz.Examples.Escrow.{Status, empty, deposited, released, deposit, release, refund}
use soro_fuzz.Examples.Escrow.Harness as EscrowHarness
use soro_fuzz.Examples.Escrow.Machine.{
  succeeds, holding, EscrowCall, calls_deposit, calls_release, calls_refund, commit, commit_all,
  Moves, escrow_guards, commit-Moves, final_stays,
}
use soro_fuzz.Examples.Escrow.Clean as EscrowClean

abbrev everyone : AuthSelection
everyone = record { indices = 0 ∷ 1 ∷ 2 ∷ [] }

abbrev nobody : AuthSelection
nobody = record { indices = [] }

abbrev no_count : Counter.Storage ℕ
no_count = record { count = none; admin = none }

abbrev counter_steps : Run Harness.CounterCommand
counter_steps = record {
  steps =
      record { command = Harness.increment; authorized = nobody; advance_time = some 60 }
      ∷ record { command = Harness.reset; authorized = nobody; advance_time = none }
      ∷ record { command = Harness.reset; authorized = everyone; advance_time = none }
      ∷ [];
}

counter_run_completed_example :
    run (Harness.adapter (host_of no_count)) (Clean.harness (host_of no_count) 32 4) counter_steps
    ≡ completed
counter_run_completed_example = counter_run_completed (host_of no_count) 32 4 counter_steps

broken_run_violated_example :
    run
      (Broken.broken_adapter (host_of no_count))
      (Broken.broken_harness (host_of no_count) 32 4)
      (record { steps = incrementing (record { indices = [] }) none ∷ counter_steps.steps })
    ≡ violated (divergence 0)
broken_run_violated_example =
    broken_run_violated (host_of no_count) 31 4 (record { indices = [] }) none counter_steps.steps

abbrev broken_steps : Run Harness.CounterCommand
broken_steps = record { steps = incrementing (record { indices = [] }) none ∷ counter_steps.steps }

run_violated_example :
    (0 < min 32 4)
    × (run
          (Broken.broken_adapter (host_of no_count))
          (Broken.broken_harness (host_of no_count) 32 4)
          (record { steps = [] })
        ≡ completed)
    × (run
          (Broken.broken_adapter (host_of no_count))
          (Broken.broken_harness (host_of no_count) 32 4)
          (record { steps = take 1 broken_steps.steps })
        ≡ violated (divergence 0))
    × (((divergence 0).invariant ≡ "no-undeclared-panic")
        ⊎ IsNamed
            (Broken.broken_adapter (host_of no_count))
            (Broken.broken_harness (host_of no_count) 32 4).invariants
            (divergence 0).invariant)
run_violated_example =
    run_violated (Broken.broken_adapter (host_of no_count))
      (Broken.broken_harness (host_of no_count) 32 4) broken_steps (divergence 0)
      (broken_value_matches_model-IsHonest (host_of no_count), tt)
      (broken_run_violated (host_of no_count) 31 4 (record { indices = [] }) none
        counter_steps.steps)

abbrev no_escrow : Escrow.Storage ℕ
no_escrow = record {
  depositor = none;
  beneficiary = none;
  deadline = none;
  status = none;
  amount = none;
}

abbrev escrow_steps : Run EscrowHarness.EscrowCommand
escrow_steps = record {
  steps =
      record {
        command = EscrowHarness.deposit (record { value = pos 50 });
        authorized = everyone;
        advance_time = none;
      }
      ∷ record { command = EscrowHarness.refund; authorized = nobody; advance_time = none }
      ∷ record { command = EscrowHarness.refund; authorized = nobody; advance_time = some 90000 }
      ∷ [];
}

escrow_run_completed_example :
    run
      (EscrowHarness.adapter (host_of no_escrow))
      (EscrowClean.harness (host_of no_escrow) 32 4)
      escrow_steps
    ≡ completed
escrow_run_completed_example =
    EscrowClean.escrow_run_completed (host_of no_escrow) 32 4 escrow_steps

abbrev signs_one : ℕ → Bool
signs_one a = a == 1

escrow_guards_example :
    ((succeeds (deposit (pos 5) signs_one 10 (holding 1 2 20 deposited (pos 5))).0 ≡ true)
      ↔ ((signs_one 1 ≡ true) × (deposited ≡ empty)))
    × ((succeeds (release signs_one 10 (holding 1 2 20 deposited (pos 5))).0 ≡ true)
        ↔ ((signs_one 1 ≡ true) × (deposited ≡ deposited) × (10 < 20)))
    × ((succeeds (refund signs_one 10 (holding 1 2 20 deposited (pos 5))).0 ≡ true)
        ↔ ((deposited ≡ deposited) × (20 ≤ 10)))
escrow_guards_example = escrow_guards 1 2 20 deposited (pos 5) (pos 5) signs_one 10

commit-Moves_example :
    (commit calls_release signs_one 10 (holding 1 2 20 deposited (pos 5))
      ≡ holding 1 2 20 deposited (pos 5))
    ⊎ ((status : Status) × (held : ℤ) × (commit calls_release signs_one 10
            (holding 1 2 20 deposited (pos 5))
          ≡ holding 1 2 20 status held)
        × Moves true 10 20 deposited (pos 5) status held)
commit-Moves_example = commit-Moves calls_release signs_one 10 1 2 20 deposited (pos 5)

abbrev late_calls : List (EscrowCall × (ℕ → Bool) × ℕ)
late_calls =
    (calls_refund, signs_one, 30)
    ∷ (calls_deposit (pos 9), signs_one, 31)
    ∷ (calls_release, signs_one, 5)
    ∷ []

final_stays_example :
    commit_all late_calls (holding 1 2 20 released (pos 5)) ≡ holding 1 2 20 released (pos 5)
final_stays_example = final_stays late_calls 1 2 20 released (pos 5) (inl refl)
