-- ===== src/Server/Worker/Drains.antt =====
-- `run_loop` of crates/server/src/worker/mod.rs on the database: the queue runs empty.
use soro_fuzz.Base.{
  ℕ, zero, suc, ◌-◌, ◌≤◌, ◌≡◌, false, inl, inr, String, Eq, arith, Bool-cases, Option-cases, length,
}
use soro_fuzz.Server.Store.{RunFinish, CampaignRecord}
use soro_fuzz.Server.Store.Tables.{JobRow, Tables}
use soro_fuzz.Server.Store.Operations.{is_claimable, get_campaign, claim_job, start_run, finish_run}
use soro_fuzz.Server.Store.Operations.Lists.{IsIn}
use soro_fuzz.Server.Store.Operations.Outcomes.{finish_run-rows}
use soro_fuzz.Server.Store.Operations.Queue.{
  claimable, none_claimable, claim_job-claimable, start_run-claimable, finish_rows-claimable,
}
use soro_fuzz.Server.Store.Postgres.{
  Database, Surroundings, seen, now, committed, start, finish, ids_from,
}
use soro_fuzz.Server.Targets.{Target, get}
use soro_fuzz.Server.Worker.{World, Worker, execute, begin, process, round, run_loop}
use soro_fuzz.Server.Worker.Lives.{on_database, read_campaign}

module _ {Uuid : Type 0} ⦃e : Eq Uuid⦄ (around : Surroundings Uuid) where
  -- Other clients make no more jobs claimable.
  abbrev pub NoNewWork : Type 0
  NoNewWork = (n : ℕ) (t : Tables Uuid) → claimable (around.others n t) ≤ claimable t

  module _ (idle : NoNewWork) where
    start-claimable :
        (run_id : Uuid) (worker : String) (db : Database Uuid)
        → claimable (start around run_id worker db).1.tables ≤ claimable db.tables
    unfolding start
    start-claimable run_id worker db = omega (
      arith,
      idle db.transactions db.tables,
      start_run-claimable (now around db) run_id worker (seen around db),
    )

    finish-claimable :
        (run_id : Uuid) (result : RunFinish) (db : Database Uuid)
        → claimable (finish around run_id result db).1.tables ≤ claimable db.tables
    unfolding finish
    finish-claimable run_id result db =
        let ids = ids_from around.gen_random_uuid db.generated (length result.findings) in
        elim (Option-cases (finish_run (now around db) run_id ids result (seen around db))) [
          | inl refused ↦ rw (refused, finish) (idle db.transactions db.tables)
          | inr (t, stored) ↦
              rw (stored, finish)
                (rw (← finish_run-rows (now around db) run_id ids result (seen around db) t stored)
                  (omega (
                    arith,
                    idle db.transactions db.tables,
                    finish_rows-claimable (now around db) run_id ids result (seen around db),
                  )))
        ]

    module _ {Sender : Type 0} (worker : Worker (Database Uuid) Uuid Sender) where
      begin-claimable :
          (campaign_id run_id : Uuid) (c : CampaignRecord Uuid) (target : Target)
          (w : World (Database Uuid) Uuid Sender)
          → claimable (begin (on_database around worker) campaign_id run_id c target w).state.tables
            ≤ claimable w.state.tables
      unfolding begin start execute
      begin-claimable campaign_id run_id c target w =
          elim (Bool-cases
            (start_run (now around w.state) run_id worker.id (seen around w.state)).0) [
              | inr no_ ↦ rw no_ (start-claimable run_id worker.id w.state)
              | inl yes_ ↦ rw yes_ (
                  omega (
                    arith,
                    start-claimable run_id worker.id w.state,
                    finish-claimable run_id _ (start around run_id worker.id w.state).1,
                  ))
            ]

      process-claimable :
          (campaign_id run_id : Uuid) (w : World (Database Uuid) Uuid Sender)
          → claimable (process (on_database around worker) campaign_id run_id w).state.tables
            ≤ claimable w.state.tables
      unfolding process
      process-claimable campaign_id run_id w =
          elim (Option-cases (get_campaign campaign_id (seen around w.state))) [
            | inl absent ↦ rw (absent, process) (idle w.state.transactions w.state.tables)
            | inr (c, found) ↦ elim (Option-cases (get c.target_id worker.targets)) [
              | inl unknown ↦
                  rw (found, process) (rw unknown (idle w.state.transactions w.state.tables))
              | inr (target, known) ↦
                  rw (found, process)
                    (rw known (
                      omega (
                        arith,
                        idle w.state.transactions w.state.tables,
                        begin-claimable campaign_id run_id c target
                            (record w { state = read_campaign around w.state }),
                      )))
            ]
          ]

      -- A round leaves one claimable job fewer, or none.
      round-claimable :
          (w : World (Database Uuid) Uuid Sender)
          → claimable (round (on_database around worker) w).state.tables
            ≤ claimable w.state.tables - 1
      unfolding round
      round-claimable w =
          let taken = claim_job-claimable (now around w.state) worker.id (seen around w.state) in
          let before = idle w.state.transactions w.state.tables in
          elim (Option-cases (claim_job (now around w.state) worker.id (seen around w.state)).0) [
            | inl empty ↦ rw (empty, round) (omega (arith, taken, before))
            | inr (job, claimed) ↦
                rw (claimed, round)
                  (omega (
                    arith,
                    taken,
                    before,
                    process-claimable job.campaign_id job.run_id
                        (record w { state = claimed_state w.state }),
                  ))
          ]
        where
          claimed_state : Database Uuid → Database Uuid
          claimed_state db =
              committed around 0 (claim_job (now around db) worker.id (seen around db)).1 db

      run_loop-claimable :
          (n : ℕ) (w : World (Database Uuid) Uuid Sender)
          → claimable (run_loop n (on_database around worker) w).state.tables
            ≤ claimable w.state.tables - n
      unfolding run_loop
      run_loop-claimable zero w = omega arith
      run_loop-claimable (suc n) w =
          omega
            (arith, round-claimable w, run_loop-claimable n (round (on_database around worker) w))

      -- While other clients make no more jobs claimable, a worker's loop takes at most as many
      -- rounds as there are claimable jobs until none is: after so many rounds or more, every job is
      -- claimed or its run is not pending.
      pub run_loop_drains :
          (n : ℕ) (w : World (Database Uuid) Uuid Sender)
          → claimable w.state.tables ≤ n
          → (j : JobRow Uuid) → IsIn j (run_loop n (on_database around worker) w).state.tables.jobs
          → is_claimable (run_loop n (on_database around worker) w).state.tables.runs j ≡ false
      run_loop_drains n w enough =
          none_claimable (run_loop n (on_database around worker) w).state.tables
            (omega (arith, run_loop-claimable n w))
