-- ===== src/Server/Api/Resources.antt =====
-- The handlers of crates/server/src/api/runs.rs, findings.rs, targets.rs and health.rs.
use soro_fuzz.Base.{
  ℕ, Bool, true, false, Option, none, some, List, [], ◌∷◌, map, String, concat, string_eq,
  if◌then◌else◌,
}
use soro_fuzz.Base.Results.{Result, ok, err}
use soro_fuzz.Int.{ℤ}
use soro_fuzz.Server.Store.{RunStatus, FindingStep}
use soro_fuzz.Server.Store.Interface.{StoreError, database, migrate}
use soro_fuzz.Server.Store.Reads.{RunRecord}
use soro_fuzz.Server.Store.Reads.Findings.{FindingRecord}
use soro_fuzz.Server.Targets
use soro_fuzz.Server.Targets.{TargetMethodParam, TargetMethod, InvariantInfo, Target}
use soro_fuzz.Server.Api.{
  Formats, ApiError, not_found, AppState, Handler, ◌>>=◌, respond, try_, try_store, ok_or,
  parse_uuid,
}

pub record RunDto : Type 0 where
  pub id : String
  pub campaign_id : String
  pub target_id : String
  pub status : RunStatus
  pub time_budget_secs : ℤ  -- i32
  pub elapsed_secs : ℤ  -- i64
  pub iterations : ℤ  -- i64
  pub findings_count : ℕ
  pub started_at : Option ℕ
  pub finished_at : Option ℕ

pub record FindingSummaryDto : Type 0 where
  pub id : String
  pub run_id : String
  pub invariant : String
  pub message : String
  pub step_index : ℤ  -- i32
  pub created_at : ℕ

pub record ReproInfoDto : Type 0 where
  pub fuzz_target_name : String
  pub artifact_path : String
  pub requires_sanitizer_thread : Bool

pub record FindingDto : Type 0 where
  pub id : String
  pub run_id : String
  pub invariant : String
  pub message : String
  pub step_index : ℤ  -- i32
  pub created_at : ℕ
  pub campaign_id : String
  pub target_id : String
  pub sequence : List FindingStep
  pub repro : ReproInfoDto

module _ {Uuid : Type 0} (formats : Formats Uuid) where
  unfoldable pub run_dto : RunRecord Uuid → RunDto
  run_dto r = record {
    id = formats.to_string r.id;
    campaign_id = formats.to_string r.campaign_id;
    target_id = r.target_id;
    status = r.status;
    time_budget_secs = r.time_budget_secs;
    elapsed_secs = r.elapsed_secs;
    iterations = r.iterations;
    findings_count = r.findings_count;
    started_at = r.started_at;
    finished_at = r.finished_at;
  }

  unfoldable pub finding_summary_dto : FindingRecord Uuid → FindingSummaryDto
  finding_summary_dto r = record {
    id = formats.to_string r.id;
    run_id = formats.to_string r.run_id;
    invariant = r.invariant;
    message = r.message;
    step_index = r.step_index;
    created_at = r.created_at;
  }

  unfoldable pub finding_dto : FindingRecord Uuid → FindingDto
  finding_dto r = record {
    id = formats.to_string r.id;
    run_id = formats.to_string r.run_id;
    invariant = r.invariant;
    message = r.message;
    step_index = r.step_index;
    created_at = r.created_at;
    campaign_id = formats.to_string r.campaign_id;
    target_id = r.target_id;
    sequence = r.sequence;
    repro = record {
      fuzz_target_name = r.fuzz_target_name;
      artifact_path = r.artifact_path;
      requires_sanitizer_thread = r.requires_sanitizer_thread;
    };
  }

  abbrev pub run_not_found : Uuid → ApiError
  run_not_found id =
      not_found "run_not_found" (concat ("no run with id " ∷ formats.to_string id ∷ []))

  abbrev pub finding_not_found : Uuid → ApiError
  finding_not_found id =
      not_found "finding_not_found" (concat ("no finding with id " ∷ formats.to_string id ∷ []))

  module _ {S Sender : Type 0} (state : AppState S Uuid Sender) where
    unfoldable pub get_run : String → Handler S RunDto
    unfolding parse_uuid run_dto
    get_run raw = do
      id ← try_ (parse_uuid formats raw)
      found ← try_store (state.store.get_run id)
      row ← try_ (ok_or found (run_not_found id))
      respond (run_dto row)

    unfoldable pub list_findings_for_run : String → Handler S (List FindingSummaryDto)
    unfolding parse_uuid finding_summary_dto
    list_findings_for_run raw = do
      run_id ← try_ (parse_uuid formats raw)
      found ← try_store (state.store.get_run run_id)
      run ← try_ (ok_or found (run_not_found run_id))
      findings ← try_store (state.store.list_findings_for_run run_id)
      respond (map finding_summary_dto findings)

    unfoldable pub get_finding : String → Handler S FindingDto
    unfolding parse_uuid finding_dto
    get_finding raw = do
      id ← try_ (parse_uuid formats raw)
      found ← try_store (state.store.get_finding id)
      row ← try_ (ok_or found (finding_not_found id))
      respond (finding_dto row)

pub record TargetMethodParamDto : Type 0 where
  pub name : String
  pub ty : String

pub record TargetMethodDto : Type 0 where
  pub name : String
  pub params : List TargetMethodParamDto

pub record InvariantInfoDto : Type 0 where
  pub id : String
  pub name : String
  pub description : String

pub record TargetDto : Type 0 where
  pub id : String
  pub name : String
  pub contract_name : String
  pub methods : List TargetMethodDto
  pub available_invariants : List InvariantInfoDto
  pub fuzz_target_name : String

unfoldable pub param_dto : TargetMethodParam → TargetMethodParamDto
param_dto p = record { name = p.name; ty = p.ty }

unfoldable pub method_dto : TargetMethod → TargetMethodDto
unfolding param_dto
method_dto m = record { name = m.name; params = map param_dto m.params }

unfoldable pub invariant_dto : InvariantInfo → InvariantInfoDto
invariant_dto i = record { id = i.id; name = i.name; description = i.description }

unfoldable pub target_dto : Target → TargetDto
unfolding method_dto invariant_dto
target_dto t = record {
  id = t.id;
  name = t.name;
  contract_name = t.contract_name;
  methods = map method_dto t.methods;
  available_invariants = map invariant_dto t.available_invariants;
  fuzz_target_name = t.fuzz_target_name;
}

pub record ComponentStatus : Type 0 where
  pub ok : Bool
  pub detail : Option String

pub record HealthResponse : Type 0 where
  pub status : String
  pub database : ComponentStatus
  pub toolchain : ComponentStatus

abbrev pub component_ok : ComponentStatus
component_ok = record { ok = true; detail = none }

abbrev pub component_error : String → ComponentStatus
component_error detail = record { ok = false; detail = some detail }

abbrev pub component_unknown : ComponentStatus
component_unknown = record { ok = false; detail = some "toolchain probing not yet implemented" }

-- `StoreError`'s text
abbrev pub store_error_text : StoreError → String
store_error_text (database e) = concat ("database error: " ∷ e ∷ [])
store_error_text (migrate e) = concat ("migration error: " ∷ e ∷ [])

module _ {S Uuid Sender : Type 0} (state : AppState S Uuid Sender) where
  unfoldable pub list_targets : List TargetDto
  unfolding Targets.list target_dto
  list_targets = map target_dto (Targets.list state.targets)

  -- The error is the status code alone.
  unfoldable pub get_target : String → Result ℕ TargetDto
  unfolding Targets.get target_dto
  get_target id = elim (Targets.get id state.targets) [
    | none ↦ err 404
    | some t ↦ ok (target_dto t)
  ]

  unfoldable pub health : S → (ℕ × HealthResponse) × S
  health s =
      let (probed, s') = state.store.health_check s in
      let component : ComponentStatus = elim probed [
        | ok _ ↦ component_ok
        | err e ↦ component_error (store_error_text e)
      ] in
      (
        (
          if component.ok then 200 else 503,
          record {
            status = if component.ok then "ok" else "degraded";
            database = component;
            toolchain = component_unknown;
          },
        ),
        s',
      )
