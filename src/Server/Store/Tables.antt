-- ===== src/Server/Store/Tables.antt =====
-- The tables that crates/server/src/store/postgres.rs keeps, with the columns that its statements
-- name, and the statements it puts to the database: a table is the list of its rows in the order in
-- which they were inserted.
use soro_fuzz.Base.{ℕ, Bool, Option, none, some, List, [], ◌∷◌, String, if◌then◌else◌, ltb}
use soro_fuzz.Int.{ℤ}
use soro_fuzz.Server.Targets.{Target}
use soro_fuzz.Server.Store.{CampaignStatus, RunStatus, NewFinding}

pub record CampaignRow (Uuid : Type 0) : Type 0 where
  pub id : Uuid
  pub target_id : String
  pub name : String
  pub invariant_ids : List String
  pub time_budget_secs : ℤ
  pub status : CampaignStatus
  pub created_at : ℕ
  pub updated_at : ℕ

pub record RunRow (Uuid : Type 0) : Type 0 where
  pub id : Uuid
  pub campaign_id : Uuid
  pub status : RunStatus
  pub iterations : ℤ
  pub started_at : Option ℕ
  pub finished_at : Option ℕ
  pub worker : Option String
  pub log_tail : Option String

pub record JobRow (Uuid : Type 0) : Type 0 where
  pub id : Uuid
  pub campaign_id : Uuid
  pub run_id : Uuid
  pub claimed_by : Option String
  pub claimed_at : Option ℕ
  pub attempts : ℕ
  pub created_at : ℕ

pub record FindingRow (Uuid : Type 0) : Type 0 where
  pub id : Uuid
  pub run_id : Uuid
  pub finding : NewFinding
  pub created_at : ℕ

pub record Tables (Uuid : Type 0) : Type 0 where
  pub targets : List Target
  pub campaigns : List (CampaignRow Uuid)
  pub runs : List (RunRow Uuid)
  pub jobs : List (JobRow Uuid)
  pub findings : List (FindingRow Uuid)

module _ {A : Type 0} where
  -- `SELECT .. WHERE`
  unfoldable pub select_where : (A → Bool) → List A → List A
  select_where p [] = []
  select_where p (x ∷ xs) = let rest = select_where p xs in if p x then x ∷ rest else rest

  -- `fetch_optional`: the first row.
  abbrev pub first_row : List A → Option A
  first_row [] = none
  first_row (x ∷ xs) = some x

  -- `UPDATE .. SET .. WHERE`
  unfoldable pub update_where : (A → Bool) → (A → A) → List A → List A
  update_where p f [] = []
  update_where p f (x ∷ xs) = let rest = update_where p f xs in (if p x then f x else x) ∷ rest

  -- `ORDER BY .. LIMIT 1`, by a time: the first of the earliest rows.
  unfoldable pub earliest : (A → ℕ) → List A → Option A
  earliest time [] = none
  earliest time (x ∷ xs) = elim (earliest time xs) [
    | none ↦ some x
    | some y ↦ if ltb (time y) (time x) then some y else some x
  ]
