-- ===== src/Server/Api/Campaigns/Created.antt =====
-- A campaign that is created over the API of crates/server/src/api/campaigns.rs, and read back.
use soro_fuzz.Base.{ℕ, ◌+◌, ◌≡◌, refl, ap, true, some, string_eq, contains, Eq}
use soro_fuzz.Base.Results.{ok}
use soro_fuzz.Int.{◌≤ℤ◌, i32_max}
use soro_fuzz.Server.Targets.{Target, get}
use soro_fuzz.Server.Store.{CampaignStatus}
use soro_fuzz.Server.Store.Tables.{Tables}
use soro_fuzz.Server.Store.Operations
use soro_fuzz.Server.Store.Operations.{insert_rows}
use soro_fuzz.Server.Store.Operations.Mirror.{Consistent, IsFresh}
use soro_fuzz.Server.Store.Operations.Created.{created_record, create_campaign_created, ids_of}
use soro_fuzz.Server.Store.Postgres.{Database, Surroundings, pg_store, now, committed, create}
use soro_fuzz.Server.Api.{Formats, AppState, parse_uuid}
use soro_fuzz.Server.Api.Campaigns.{
  CreateCampaignRequest, CampaignDto, campaign_dto, create_campaign, get_campaign,
}
use soro_fuzz.Server.Api.Campaigns.Checks.{IsAcceptable, requested, create_campaign_accepted}

module _ {Uuid Sender : Type 0} ⦃e : Eq Uuid⦄ (around : Surroundings Uuid) (formats : Formats Uuid)
    (app : AppState (Database Uuid) Uuid Sender) where
  abbrev pub on_database : AppState (Database Uuid) Uuid Sender
  on_database = record app { store = pg_store around }

  -- The ids that the database generates next are new.
  abbrev pub GeneratesNew : Database Uuid → Type 0
  GeneratesNew db =
      IsFresh (around.gen_random_uuid (db.generated + 0))
        (around.gen_random_uuid (db.generated + 1)) db.tables

  module _ (alone : (n : ℕ) (t : Tables Uuid) → around.others n t ≡ t)
      (readable : (u : Uuid) → formats.parse_str (formats.to_string u) ≡ some u)
      (body : CreateCampaignRequest) (db : Database Uuid) where
    abbrev campaign_id : Uuid
    campaign_id = around.gen_random_uuid (db.generated + 0)

    abbrev run_id : Uuid
    run_id = around.gen_random_uuid (db.generated + 1)

    abbrev pub answered : CampaignDto
    answered =
        campaign_dto formats (
          created_record (now around db) campaign_id run_id (requested formats on_database body db))

    module _ (k : Consistent db.tables) (new : GeneratesNew db)
        (known : contains (ids_of db.tables.targets) body.target_id ≡ true) where
      abbrev stored : Database Uuid
      stored =
          committed around 3
            (insert_rows (now around db) campaign_id run_id
              (around.gen_random_uuid (db.generated + 2)) (requested formats on_database body db)
              db.tables)
            db

      in_tables :
          (Operations.create_campaign
              (now around db)
              campaign_id
              run_id
              (around.gen_random_uuid (db.generated + 2))
              (requested formats on_database body db)
              db.tables
            ≡ some (
              created_record
                  (now around db)
                  campaign_id
                  run_id
                  (requested formats on_database body db),
              stored.tables,
            ))
          × (Operations.get_campaign campaign_id stored.tables
              ≡ some (
                  created_record
                    (now around db)
                    campaign_id
                    run_id
                    (requested formats on_database body db)))
      in_tables =
          create_campaign_created (now around db) campaign_id run_id
            (around.gen_random_uuid (db.generated + 2)) (requested formats on_database body db)
            db.tables k new known

      create_stored : create around (requested formats on_database body db) db ≡ (
        ok (
            created_record
              (now around db)
              campaign_id
              run_id
              (requested formats on_database body db)),
        stored,
      )
      unfolding create
      create_stored = rw (alone db.transactions db.tables, create) (rw in_tables.0 refl)

      -- No other client using the database, its tables consistent, new ids, ids that are read as they
      -- are written, and a maximum of the time budget that fits into an i32: a request that is
      -- acceptable for a target which the registry and the tables hold is answered by 201 and a
      -- queued campaign with the target, the name, the invariants and the time budget of the
      -- request; and asking for the campaign by the id that was answered gives the same answer
      -- again.
      pub create_campaign-get_campaign :
          (target : Target)
          → get body.target_id app.targets ≡ some target
          → IsAcceptable target app.max_time_budget_secs body
          → app.max_time_budget_secs ≤ℤ i32_max
          → ((create_campaign formats on_database body db).0 ≡ ok (201, answered))
            × (answered.status ≡ CampaignStatus.queued)
            × (answered.target_id ≡ body.target_id)
            × (answered.name ≡ body.name)
            × (answered.invariant_ids ≡ body.invariant_ids)
            × (answered.time_budget_secs ≡ body.time_budget_secs)
            × ((get_campaign formats on_database answered.id
                  (create_campaign formats on_database body db).1).0
                ≡ ok answered)
      unfolding get_campaign campaign_dto parse_uuid
      create_campaign-get_campaign target served h small =
          let made =
            (create_campaign_accepted formats on_database body db target served h small).0
              (created_record (now around db) campaign_id run_id
                (requested formats on_database body db))
              stored create_stored in
          (
            ap (λ r. r.0) made,
            refl,
            refl,
            refl,
            refl,
            refl,
            rw (made, readable campaign_id)
                (rw (alone stored.transactions stored.tables) (rw in_tables.1 refl)),
          )
