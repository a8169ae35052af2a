-- ===== src/Server/Store/Interface.antt =====
-- crates/server/src/store/mod.rs: the trait `Store`, through which the API and the workers reach the
-- tables. A state of type `S` stands behind it.
use soro_fuzz.Base.{Bool, Option, List, String}
use soro_fuzz.Base.Results.{Result}
use soro_fuzz.Server.Targets.{Target}
use soro_fuzz.Server.Store.{NewCampaign, RunFinish, CampaignRecord, ClaimedJob}
use soro_fuzz.Server.Store.Reads.{CampaignFilter, RunRecord}
use soro_fuzz.Server.Store.Reads.Findings.{FindingRecord}

-- The errors of the database library are given by their text.
pub data StoreError : Type 0 where
  database : String → StoreError
  migrate : String → StoreError

abbrev pub Action : Type 0 → Type 0 → Type 0
Action S A = S → Result StoreError A × S

pub record Store (S Uuid : Type 0) : Type 0 where
  pub health_check : Action S (Unit {0})
  pub sync_targets : List Target → Action S (Unit {0})
  pub create_campaign : NewCampaign → Action S (CampaignRecord Uuid)
  pub list_campaigns : CampaignFilter → Action S (List (CampaignRecord Uuid))
  pub get_campaign : Uuid → Action S (Option (CampaignRecord Uuid))
  pub cancel_campaign : Uuid → Action S (Option (CampaignRecord Uuid))
  pub claim_job : String → Action S (Option (ClaimedJob Uuid))
  pub start_run : Uuid → String → Action S Bool
  pub finish_run : Uuid → RunFinish → Action S (Unit {0})
  pub get_run : Uuid → Action S (Option (RunRecord Uuid))
  pub list_findings_for_run : Uuid → Action S (List (FindingRecord Uuid))
  pub get_finding : Uuid → Action S (Option (FindingRecord Uuid))
