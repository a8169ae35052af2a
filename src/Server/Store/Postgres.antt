-- ===== src/Server/Store/Postgres.antt =====
-- `impl Store for PgStore`, crates/server/src/store/postgres.rs: the transactions as the methods of
-- `Store`. Each runs on the tables as the other clients of the database have left them by then.
use soro_fuzz.Base.{ℕ, zero, suc, ◌+◌, Bool, Option, none, some, List, [], ◌∷◌, String, Eq, length}
use soro_fuzz.Base.Results.{ok, err}
use soro_fuzz.Server.Store.{NewCampaign, RunFinish, CampaignRecord}
use soro_fuzz.Server.Store.Tables.{Tables}
use soro_fuzz.Server.Store.Interface.{database, Action, Store}
use soro_fuzz.Server.Store.Operations
use soro_fuzz.Server.Store.Reads
use soro_fuzz.Server.Store.Reads.{CampaignFilter, RunRecord}
use soro_fuzz.Server.Store.Reads.Findings
use soro_fuzz.Server.Store.Reads.Findings.{FindingRecord}

-- The tables with the number of the transactions that this client has made, and of the ids that the
-- database has generated for it.
pub record Database (Uuid : Type 0) : Type 0 where
  pub tables : Tables Uuid
  pub transactions : ℕ
  pub generated : ℕ

-- The database's surroundings: the time of each transaction, the ids it generates, what other
-- clients do to the tables before each transaction, and the error by which a list of campaigns
-- fails, if it does: the connection's, or the database's at a text with a NUL.
pub record Surroundings (Uuid : Type 0) : Type 0 where
  pub clock : ℕ → ℕ
  pub gen_random_uuid : ℕ → Uuid
  pub others : ℕ → Tables Uuid → Tables Uuid
  pub list_error : CampaignFilter → ℕ → Option String

module _ {Uuid : Type 0} ⦃e : Eq Uuid⦄ where
  -- The ids from the `n`-th on.
  unfoldable pub ids_from : (ℕ → Uuid) → ℕ → ℕ → List Uuid
  ids_from uuids n zero = []
  ids_from uuids n (suc k) = uuids n ∷ ids_from uuids (suc n) k

  module _ (around : Surroundings Uuid) where
    -- The tables at the next transaction, and its time.
    abbrev pub seen : Database Uuid → Tables Uuid
    seen db = around.others db.transactions db.tables

    abbrev pub now : Database Uuid → ℕ
    now db = around.clock db.transactions

    -- The database after a transaction that left tables and generated some ids.
    abbrev pub committed : ℕ → Tables Uuid → Database Uuid → Database Uuid
    committed ids t db = record {
      tables = t;
      transactions = suc db.transactions;
      generated = db.generated + ids;
    }

    -- A statement that only reads.
    abbrev pub reads : {A : Type 0} → (ℕ → Tables Uuid → A) → Action (Database Uuid) A
    reads f db = (ok (f (now db) (seen db)), committed 0 (seen db) db)

    unfoldable pub create : NewCampaign → Action (Database Uuid) (CampaignRecord Uuid)
    create input db =
        let id : (ℕ → Uuid) = λ k. around.gen_random_uuid (db.generated + k) in
        elim (Operations.create_campaign (now db) (id 0) (id 1) (id 2) input (seen db)) [
          | none ↦ (err (database "foreign key violation"), committed 3 (seen db) db)
          | some (row, t) ↦ (ok row, committed 3 t db)
        ]

    unfoldable pub list : CampaignFilter → Action (Database Uuid) (List (CampaignRecord Uuid))
    list filter db = elim (around.list_error filter db.transactions) [
      | some error ↦ (err (database error), committed 0 (seen db) db)
      | none ↦ elim (Reads.list_campaigns filter (seen db)) [
        | none ↦ (err (database "LIMIT or OFFSET is negative"), committed 0 (seen db) db)
        | some rows ↦ (ok rows, committed 0 (seen db) db)
      ]
    ]

    unfoldable pub start : Uuid → String → Action (Database Uuid) Bool
    start run_id worker_id db =
        let (started, t) = Operations.start_run (now db) run_id worker_id (seen db) in
        (ok started, committed 0 t db)

    unfoldable pub finish : Uuid → RunFinish → Action (Database Uuid) (Unit {0})
    unfolding ids_from
    finish run_id result db =
        let ids = ids_from around.gen_random_uuid db.generated (length result.findings) in
        elim (Operations.finish_run (now db) run_id ids result (seen db)) [
          | none ↦ (
            err (database "foreign key violation"),
            committed (length result.findings) (seen db) db,
          )
          | some t ↦ (ok tt, committed (length result.findings) t db)
        ]

    abbrev pub pg_store : Store (Database Uuid) Uuid
    pg_store = record {
      health_check = reads (λ now t. tt);
      sync_targets =
          λ targets db. (ok tt, committed 0 (Operations.sync_targets targets (seen db)) db);
      create_campaign = create;
      list_campaigns = list;
      get_campaign = λ id. reads (λ now t. Operations.get_campaign id t);
      cancel_campaign = λ id db.
          let (found, t) = Operations.cancel_campaign (now db) id (seen db) in
          (ok found, committed 0 t db);
      claim_job = λ worker_id db.
          let (job, t) = Operations.claim_job (now db) worker_id (seen db) in
          (ok job, committed 0 t db);
      start_run = start;
      finish_run = finish;
      get_run = λ id. reads (λ now t. Reads.get_run now id t);
      list_findings_for_run = λ run_id. reads (λ now t. Findings.list_findings_for_run run_id t);
      get_finding = λ id. reads (λ now t. Findings.get_finding id t);
    }
