-- ===== src/Server/Store/Reads/Findings.antt =====
-- The findings that crates/server/src/store/postgres.rs reads back, joined to their runs and
-- campaigns.
use soro_fuzz.Base.{ℕ, Bool, Option, List, [], ◌∷◌, ◌++◌, String, Eq, ◌==◌, leb, if◌then◌else◌}
use soro_fuzz.Int.{ℤ}
use soro_fuzz.Server.Store.{FindingStep}
use soro_fuzz.Server.Store.Tables.{CampaignRow, RunRow, FindingRow, Tables, select_where, first_row}

pub record FindingRecord (Uuid : Type 0) : Type 0 where
  pub id : Uuid
  pub run_id : Uuid
  pub campaign_id : Uuid
  pub target_id : String
  pub invariant : String
  pub message : String
  pub step_index : ℤ
  pub sequence : List FindingStep
  pub fuzz_target_name : String
  pub artifact_path : String
  pub requires_sanitizer_thread : Bool
  pub created_at : ℕ

module _ {Uuid : Type 0} where
  -- The row of a finding with a run and a campaign.
  abbrev pub joined_row : FindingRow Uuid → RunRow Uuid → CampaignRow Uuid → FindingRecord Uuid
  joined_row f r c = record {
    id = f.id;
    run_id = f.run_id;
    campaign_id = r.campaign_id;
    target_id = c.target_id;
    invariant = f.finding.invariant;
    message = f.finding.message;
    step_index = f.finding.step_index;
    sequence = f.finding.sequence;
    fuzz_target_name = f.finding.fuzz_target_name;
    artifact_path = f.finding.artifact_path;
    requires_sanitizer_thread = f.finding.requires_sanitizer_thread;
    created_at = f.created_at;
  }

  -- `ORDER BY f.created_at`
  unfoldable pub insert_oldest :
      FindingRecord Uuid → List (FindingRecord Uuid) → List (FindingRecord Uuid)
  insert_oldest x [] = x ∷ []
  insert_oldest x (y ∷ l) =
      let rest = insert_oldest x l in if leb x.created_at y.created_at then x ∷ y ∷ l else y ∷ rest

  unfoldable pub oldest_first : List (FindingRecord Uuid) → List (FindingRecord Uuid)
  unfolding insert_oldest
  oldest_first [] = []
  oldest_first (x ∷ xs) = insert_oldest x (oldest_first xs)

module _ {Uuid : Type 0} ⦃e : Eq Uuid⦄ where
  -- `SELECT_FINDING`: a row for each campaign of each run of a finding.
  unfoldable pub join_campaigns :
      FindingRow Uuid → RunRow Uuid → List (CampaignRow Uuid) → List (FindingRecord Uuid)
  join_campaigns f r [] = []
  join_campaigns f r (c ∷ cs) =
      let rest = join_campaigns f r cs in
      if c.id == r.campaign_id then joined_row f r c ∷ rest else rest

  unfoldable pub join_runs :
      FindingRow Uuid → List (RunRow Uuid) → List (CampaignRow Uuid) → List (FindingRecord Uuid)
  unfolding join_campaigns
  join_runs f [] campaigns = []
  join_runs f (r ∷ runs) campaigns =
      let rest = join_runs f runs campaigns in
      if r.id == f.run_id then join_campaigns f r campaigns ++ rest else rest

  unfoldable pub joined_findings :
      List (FindingRow Uuid)
      → List (RunRow Uuid)
      → List (CampaignRow Uuid)
      → List (FindingRecord Uuid)
  unfolding join_runs
  joined_findings [] runs campaigns = []
  joined_findings (f ∷ fs) runs campaigns =
      join_runs f runs campaigns ++ joined_findings fs runs campaigns

  unfoldable pub list_findings_for_run : Uuid → Tables Uuid → List (FindingRecord Uuid)
  unfolding joined_findings oldest_first select_where
  list_findings_for_run run_id t = oldest_first (
      joined_findings (select_where (λ (f : FindingRow Uuid). f.run_id == run_id) t.findings) t.runs
        t.campaigns)

  unfoldable pub get_finding : Uuid → Tables Uuid → Option (FindingRecord Uuid)
  unfolding joined_findings select_where
  get_finding id t = first_row (
      joined_findings (select_where (λ (f : FindingRow Uuid). f.id == id) t.findings) t.runs
        t.campaigns)
