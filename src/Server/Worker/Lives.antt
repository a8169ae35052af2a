-- ===== src/Server/Worker/Lives.antt =====
-- `process` of crates/server/src/worker/mod.rs on the database: a run that is started is ended.
use soro_fuzz.Base.{ℕ, ◌≡◌, refl, ap, true, some, Eq, arith, length}
use soro_fuzz.Base.Results.{ok}
use soro_fuzz.Server.Store.{RunFinish, CampaignRecord}
use soro_fuzz.Server.Store.Tables.{Tables}
use soro_fuzz.Server.Store.Operations.{get_campaign, start_run}
use soro_fuzz.Server.Store.Operations.Runs.{
  IsStarted, IsEnded, start_run-IsStarted, Later, Later-IsStarted,
}
use soro_fuzz.Server.Store.Operations.Ended.{finish_run-IsEnded}
use soro_fuzz.Server.Store.Postgres.{
  Database, Surroundings, pg_store, seen, now, committed, start, finish, ids_from,
}
use soro_fuzz.Server.Targets.{Target, get}
use soro_fuzz.Server.Worker.{World, Worker, execute, begin, process}

module _ {Uuid : Type 0} ⦃e : Eq Uuid⦄ (around : Surroundings Uuid) where
  -- What other clients do are transactions, too.
  abbrev pub OnlyTransactions : Type 0
  OnlyTransactions = (n : ℕ) (t : Tables Uuid) → Later t (around.others n t)

  -- The database once `process` has read the campaign.
  abbrev pub read_campaign : Database Uuid → Database Uuid
  read_campaign db = committed around 0 (seen around db) db

  finish-IsEnded :
      OnlyTransactions
      → (run_id : Uuid) (result : RunFinish) (db : Database Uuid) → IsStarted run_id db.tables.runs
      → ((finish around run_id result db).0 ≡ ok tt)
        × IsEnded run_id (finish around run_id result db).1.tables.runs
  unfolding finish
  finish-IsEnded only run_id result db h =
      let (t, stored, ended) =
        finish_run-IsEnded (around.clock db.transactions) run_id
          (ids_from around.gen_random_uuid db.generated (length result.findings)) result
          (around.others db.transactions db.tables)
          (Later-IsStarted run_id (only db.transactions db.tables) h) in
      rw (stored, finish) (refl, ended)

  module _ {Sender : Type 0} (worker : Worker (Database Uuid) Uuid Sender) where
    abbrev pub on_database : Worker (Database Uuid) Uuid Sender
    on_database = record worker { store = pg_store around }

  module _ {Sender : Type 0} (only : OnlyTransactions) (worker : Worker (Database Uuid) Uuid Sender)
      (campaign_id run_id : Uuid) where
    execute-IsEnded :
        (c : CampaignRecord Uuid) (target : Target) (w : World (Database Uuid) Uuid Sender)
        → IsStarted run_id w.state.tables.runs
        → IsEnded run_id
            (execute (on_database worker) campaign_id run_id c target w).state.tables.runs
    unfolding execute
    execute-IsEnded c target w h = (finish-IsEnded only run_id _ w.state h).1

    begin-IsEnded :
        (c : CampaignRecord Uuid) (target : Target) (w : World (Database Uuid) Uuid Sender)
        → (start around run_id worker.id w.state).0 ≡ ok true
        → IsEnded run_id
            (begin (on_database worker) campaign_id run_id c target w).state.tables.runs
    unfolding begin start
    begin-IsEnded c target w began =
        let db = w.state in
        let t = around.others db.transactions db.tables in
        let yes_ : (start_run (around.clock db.transactions) run_id worker.id t).0 ≡ true =
          ground (arith, began) in
        rw yes_ (
          execute-IsEnded c target (record w { state = (start around run_id worker.id w.state).1 })
            (start_run-IsStarted (around.clock db.transactions) run_id worker.id t yes_))

    -- Whatever transactions other clients make before each of the worker's: if the campaign that it
    -- reads has a target of the registry, and the run is still pending when it starts it, then the
    -- run is there afterwards, and is completed, cancelled or failed.
    pub process_ends :
        (w : World (Database Uuid) Uuid Sender) (c : CampaignRecord Uuid) (target : Target)
        → get_campaign campaign_id (seen around w.state) ≡ some c
        → get c.target_id worker.targets ≡ some target
        → (start_run
            (now around (read_campaign w.state))
            run_id
            worker.id
            (seen around (read_campaign w.state))).0
          ≡ true
        → IsEnded run_id (process (on_database worker) campaign_id run_id w).state.tables.runs
    unfolding process start
    process_ends w c target found known began =
        rw (found, process)
          (rw known
            (begin-IsEnded c target (record w { state = read_campaign w.state }) (ap ok began)))
