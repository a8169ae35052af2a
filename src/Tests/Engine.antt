-- ===== src/Tests/Engine.antt =====
-- Runs of the engine (crates/core) on the small host, with the counter's adapter and with one
-- whose only command panics.
use soro_fuzz.Base.{
  ℕ, ◌≡◌, refl, ◌≤◌, ◌↔◌, ◌⊎◌, true, false, none, some, List, [], ◌∷◌, ◌++◌, arith, String,
  contains, nat_eq,
}
use soro_fuzz.Int.{pos}
use soro_fuzz.Core.Auth.{AddressPool, AuthSelection, get, generate, resolve}
use soro_fuzz.Core.Auth.Resolve.{
  selected, firsts, IsDistinct, IsNonempty, IsNamed, resolve-eq-firsts, resolve_signers,
}
use soro_fuzz.Core.Command.{Executed, unwound, str, err, ExecContext, Step, Run, from_try_result}
use soro_fuzz.Core.Command.Classify.{
  IsFinding, IsRejected, IsAbort, IsConversionError, from_try_result_classifies,
}
use soro_fuzz.Core.Adapter.{ContractAdapter, Violation, Invariant, passed}
use soro_fuzz.Core.Harness.{
  completed, violated, Harness, run, run_all, run_from, run_step, conclude, outcome_of,
  panic_message,
}
use soro_fuzz.Core.Harness.Clean.{Trace, run_from_completed_iff_Trace}
use soro_fuzz.Core.Harness.Contained.{run_contained}
use soro_fuzz.Core.Harness.Findings.{run-append}
use soro_fuzz.Tests.{World, sdk_of, host_of}
use soro_fuzz.Examples.Counter.{Storage}
use soro_fuzz.Examples.Counter.Harness
use soro_fuzz.Examples.Counter.Harness.{CounterModel, CounterCommand, increment, reset}
use soro_fuzz.Examples.Counter.Clean.{harness}

abbrev no_count : Storage ℕ
no_count = record { count = none; admin = none }

abbrev counter : ContractAdapter (sdk_of no_count)
counter = Harness.adapter (host_of no_count)

abbrev pool : AddressPool ℕ
pool = record { addresses = 5 ∷ 6 ∷ 7 ∷ [] }

-- The indices 0 and 3 name the same address.
abbrev selection : AuthSelection
selection = record { indices = 3 ∷ 1 ∷ 0 ∷ [] }

abbrev steps : List (Step CounterCommand)
steps =
    record { command = increment; authorized = selection; advance_time = some 10 }
    ∷ record { command = reset; authorized = selection; advance_time = none }
    ∷ []

abbrev context : ExecContext ℕ
context = record { contract_id = 8; addresses = pool }

abbrev one : CounterModel
one = record { expected_count = pos 1 }

abbrev ready : World (Storage ℕ)
ready = record {
  clock = 100;
  fresh = 9;
  stored = λ a. record { count = some (pos 1); admin = some 5 };
  auths = [];
}

run_from_completed_iff_Trace_example :
    (run_from counter (harness (host_of no_count) 32 4) context 0 steps one ready ≡ completed)
    ↔ Trace counter (harness (host_of no_count) 32 4) context 0 steps one ready
run_from_completed_iff_Trace_example =
    run_from_completed_iff_Trace counter (harness (host_of no_count) 32 4) context 0 steps one ready

pool-IsNonempty : IsNonempty pool
pool-IsNonempty = omega arith

resolve-eq-firsts_example : resolve pool selection ≡ some (firsts (selected pool selection.indices))
resolve-eq-firsts_example = resolve-eq-firsts pool selection pool-IsNonempty

resolve_test : resolve pool selection ≡ some (5 ∷ 6 ∷ [])
unfolding resolve get
resolve_test = refl

resolve_signers_example :
    (out : List ℕ) × (resolve pool selection ≡ some out)
    × IsDistinct out
    × ((a : ℕ) → (contains out a ≡ true) ↔ IsNamed pool selection.indices a)
resolve_signers_example = resolve_signers pool selection pool-IsNonempty

abbrev aborted : Executed
aborted =
    from_try_result {T = ℕ} {ConvErr = String} {E = ℕ} {InvokeError = String} (λ s. s) (λ s. s)
      (err (err "Abort")) true (λ n. n)

from_try_result_classifies_example :
    (IsFinding aborted ↔ (
      (IsAbort {T = ℕ} {ConvErr = String} {E = ℕ} {InvokeError = String} (err (err "Abort"))
        × (true ≡ true))
      ⊎ IsConversionError {T = ℕ} {ConvErr = String} {E = ℕ} {InvokeError = String}
          (err (err "Abort"))))
    × (IsRejected aborted ↔ (
        IsAbort {T = ℕ} {ConvErr = String} {E = ℕ} {InvokeError = String} (err (err "Abort"))
        × (true ≡ false)))
from_try_result_classifies_example =
    from_try_result_classifies {T = ℕ} {ConvErr = String} {E = ℕ} {InvokeError = String} (λ s. s)
      (λ s. s) (err (err "Abort")) true (λ n. n)

-- An adapter whose only command panics.
abbrev panicking : ContractAdapter (sdk_of no_count)
panicking = record {
  Command = Unit {0};
  Model = Unit {0};
  setup = λ addresses env. some (8, tt, env);
  execute = λ c ctx authorizers env. (unwound (str "boom"), env);
  apply_to_model = λ c m addresses o. some m;
}

abbrev panic_step : Step (Unit {0})
panic_step = record { command = tt; authorized = selection; advance_time = none }

abbrev panic_harness : Harness panicking
panic_harness = record { commands_per_run = 1; address_pool_size = 2; invariants = [] }

abbrev panic_violation : Violation
panic_violation = record { invariant = "no-undeclared-panic"; message = "boom"; step_index = 0 }

abbrev panic_run : Run (Unit {0})
panic_run = record { steps = panic_step ∷ panic_step ∷ [] }

panic_found : run panicking panic_harness panic_run ≡ violated panic_violation
unfolding run run_all run_from run_step conclude outcome_of panic_message resolve get generate
panic_found = refl

-- An invariant that always holds.
abbrev always : Invariant panicking
always = record { name = "always"; check = λ ctx. passed }

abbrev calm_harness : Harness panicking
calm_harness = record { commands_per_run = 1; address_pool_size = 2; invariants = always ∷ [] }

run_contained_example :
    (run panicking calm_harness panic_run ≡ completed)
    ⊎ ((v : Violation) × (run panicking calm_harness panic_run ≡ violated v))
run_contained_example =
    run_contained panicking calm_harness panic_run (λ addresses env h. ground (arith, h))
      (λ c m addresses o h. ground (arith, h)) ((λ ctx h. ground (arith, h)), tt)

run-append_example :
    (1 ≤ 1
      → run panicking panic_harness (record { steps = (panic_step ∷ []) ++ (panic_step ∷ []) })
        ≡ run panicking panic_harness (record { steps = panic_step ∷ [] }))
    × ((v : Violation)
        → 1 ≤ 1
        → run panicking panic_harness (record { steps = panic_step ∷ [] }) ≡ violated v
        → run panicking panic_harness (record { steps = (panic_step ∷ []) ++ (panic_step ∷ []) })
          ≡ violated v)
run-append_example = run-append panicking panic_harness (panic_step ∷ []) (panic_step ∷ [])
