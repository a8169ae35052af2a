-- ===== src/Server/Store/Reads.antt =====
-- The lists and the joined reads of crates/server/src/store/postgres.rs; times are seconds.
pub mod Pages
pub mod Findings
use soro_fuzz.Base.{
  ℕ, zero, suc, Bool, true, false, ◌&&◌, ◌||◌, Option, none, some, List, [], ◌∷◌, ◌++◌, take,
  length, map, String, string_eq, Eq, ◌==◌, nat_beq, leb, if◌then◌else◌,
}
use soro_fuzz.Int.{ℤ, pos, ◌-ℤ◌, ltb_ℤ, pos_part}
use soro_fuzz.Server.Store.{CampaignStatus, RunStatus, CampaignRecord}
use soro_fuzz.Server.Store.Tables.{CampaignRow, RunRow, FindingRow, Tables, select_where, first_row}
use soro_fuzz.Server.Store.Operations.{campaigns_with_runs}

pub record CampaignFilter : Type 0 where
  pub status : Option CampaignStatus
  pub target_id : Option String
  pub since : Option ℕ
  pub until : Option ℕ
  pub limit : ℤ  -- i64
  pub offset : ℤ  -- i64

pub record RunRecord (Uuid : Type 0) : Type 0 where
  pub id : Uuid
  pub campaign_id : Uuid
  pub target_id : String
  pub status : RunStatus
  pub time_budget_secs : ℤ
  pub elapsed_secs : ℤ
  pub iterations : ℤ
  pub findings_count : ℕ
  pub started_at : Option ℕ
  pub finished_at : Option ℕ

abbrev pub status_code : CampaignStatus → ℕ
status_code CampaignStatus.queued = 0
status_code CampaignStatus.running = 1
status_code CampaignStatus.completed = 2
status_code CampaignStatus.cancelled = 3
status_code CampaignStatus.failed = 4

-- `$1 IS NULL OR ..`
abbrev pub null_or : {A : Type 0} → Option A → (A → Bool) → Bool
null_or none p = true
null_or (some a) p = p a

module _ {A : Type 0} where
  -- `OFFSET`
  abbrev pub skip : ℕ → List A → List A
  skip zero xs = xs
  skip (suc n) [] = []
  skip (suc n) (x ∷ xs) = skip n xs

module _ {Uuid : Type 0} where
  unfoldable pub is_listed : CampaignFilter → CampaignRecord Uuid → Bool
  is_listed filter c =
      null_or filter.status (λ s. nat_beq (status_code c.status) (status_code s))
      && (null_or filter.target_id (λ id. c.target_id == id)
          && (null_or filter.since (λ t. leb t c.created_at)
              && null_or filter.until (λ t. leb c.created_at t)))

  -- `ORDER BY c.created_at DESC`
  unfoldable pub insert_newest :
      CampaignRecord Uuid → List (CampaignRecord Uuid) → List (CampaignRecord Uuid)
  insert_newest x [] = x ∷ []
  insert_newest x (y ∷ l) =
      let rest = insert_newest x l in if leb y.created_at x.created_at then x ∷ y ∷ l else y ∷ rest

  unfoldable pub newest_first : List (CampaignRecord Uuid) → List (CampaignRecord Uuid)
  unfolding insert_newest
  newest_first [] = []
  newest_first (x ∷ xs) = insert_newest x (newest_first xs)

module _ {Uuid : Type 0} ⦃e : Eq Uuid⦄ where
  -- A negative `LIMIT` or `OFFSET` is an error of the database.
  unfoldable pub list_campaigns : CampaignFilter → Tables Uuid → Option (List (CampaignRecord Uuid))
  unfolding is_listed newest_first select_where campaigns_with_runs
  list_campaigns filter t =
      if ltb_ℤ filter.limit (pos 0) || ltb_ℤ filter.offset (pos 0)
      then none
      else some (
          take (pos_part filter.limit) (
            skip (pos_part filter.offset) (
              newest_first
                (select_where (is_listed filter) (campaigns_with_runs t.campaigns t.runs)))))

  -- `COALESCE(EXTRACT(EPOCH FROM (COALESCE(r.finished_at, now()) - r.started_at)), 0)`
  unfoldable pub elapsed : ℕ → RunRow Uuid → ℤ
  elapsed now r = elim r.started_at [
    | none ↦ pos 0
    | some started ↦ elim r.finished_at [
      | none ↦ pos now -ℤ pos started
      | some ended ↦ pos ended -ℤ pos started
    ]
  ]

  -- `SELECT_RUN`: a row for each campaign of a run.
  unfoldable pub with_campaigns :
      ℕ → List (FindingRow Uuid) → RunRow Uuid → List (CampaignRow Uuid) → List (RunRecord Uuid)
  unfolding select_where elapsed
  with_campaigns now findings r [] = []
  with_campaigns now findings r (c ∷ cs) =
      let rest = with_campaigns now findings r cs in
      if c.id == r.campaign_id
      then record {
        id = r.id;
        campaign_id = r.campaign_id;
        target_id = c.target_id;
        status = r.status;
        time_budget_secs = c.time_budget_secs;
        elapsed_secs = elapsed now r;
        iterations = r.iterations;
        findings_count = length (select_where (λ (f : FindingRow Uuid). f.run_id == r.id) findings);
        started_at = r.started_at;
        finished_at = r.finished_at;
      }
        ∷ rest
      else rest

  unfoldable pub runs_with_campaigns : ℕ → Tables Uuid → List (RunRow Uuid) → List (RunRecord Uuid)
  unfolding with_campaigns
  runs_with_campaigns now t [] = []
  runs_with_campaigns now t (r ∷ rs) =
      with_campaigns now t.findings r t.campaigns ++ runs_with_campaigns now t rs

  unfoldable pub get_run : ℕ → Uuid → Tables Uuid → Option (RunRecord Uuid)
  unfolding runs_with_campaigns select_where
  get_run now id t =
      first_row (runs_with_campaigns now t (select_where (λ (r : RunRow Uuid). r.id == id) t.runs))
