-- ===== src/Server/Store.antt =====
-- crates/server/src/store/model.rs: what the methods of `Store` pass around. An id is of the type
-- `Uuid`, a time a number.
pub mod Tables
pub mod Operations
pub mod Reads
pub mod Interface
pub mod Postgres
use soro_fuzz.Base.{ℕ, Bool, true, false, Option, List, String}
use soro_fuzz.Int.{ℤ}

pub data CampaignStatus : Type 0 where
  queued running completed cancelled failed : CampaignStatus

unfoldable pub is_terminal : CampaignStatus → Bool
is_terminal completed = true
is_terminal cancelled = true
is_terminal failed = true
is_terminal _ = false

pub data RunStatus : Type 0 where
  pending running completed cancelled failed : RunStatus

pub data RunFinishStatus : Type 0 where
  completed cancelled failed : RunFinishStatus

unfoldable pub run_status : RunFinishStatus → RunStatus
run_status RunFinishStatus.completed = RunStatus.completed
run_status RunFinishStatus.cancelled = RunStatus.cancelled
run_status RunFinishStatus.failed = RunStatus.failed

unfoldable pub campaign_status : RunFinishStatus → CampaignStatus
campaign_status RunFinishStatus.completed = CampaignStatus.completed
campaign_status RunFinishStatus.cancelled = CampaignStatus.cancelled
campaign_status RunFinishStatus.failed = CampaignStatus.failed

pub record NewCampaign : Type 0 where
  pub target_id : String
  pub name : String
  pub invariant_ids : List String
  pub time_budget_secs : ℤ  -- i32

pub data FindingStepOutcome : Type 0 where
  ok : FindingStepOutcome
  declared_error : ℕ → FindingStepOutcome
  rejected : String → FindingStepOutcome
  undeclared_panic : String → FindingStepOutcome

pub record FindingStepArg : Type 0 where
  pub name : String
  pub value : String

pub record FindingStep : Type 0 where
  pub index : ℕ
  pub method : String
  pub args : List FindingStepArg
  pub authorized_by : List String
  pub advance_time_secs : Option ℕ
  pub outcome : FindingStepOutcome

pub record NewFinding : Type 0 where
  pub invariant : String
  pub message : String
  pub step_index : ℤ  -- i32
  pub sequence : List FindingStep
  pub shrunk_input : Option (List ℕ)
  pub fuzz_target_name : String
  pub artifact_path : String
  pub requires_sanitizer_thread : Bool

pub record RunFinish : Type 0 where
  pub status : RunFinishStatus
  pub iterations : ℤ  -- i64
  pub log_tail : Option String
  pub findings : List NewFinding

pub record CampaignRecord (Uuid : Type 0) : Type 0 where
  pub id : Uuid
  pub target_id : String
  pub name : String
  pub invariant_ids : List String
  pub time_budget_secs : ℤ
  pub status : CampaignStatus
  pub run_id : Uuid
  pub created_at : ℕ

pub record ClaimedJob (Uuid : Type 0) : Type 0 where
  pub job_id : Uuid
  pub campaign_id : Uuid
  pub run_id : Uuid
  pub attempts : ℕ
