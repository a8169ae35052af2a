-- ===== src/Server/Start/Known.antt =====
-- The targets and the workers of a server that has started, crates/server/src/main.rs.
use soro_fuzz.Base.{
  All, ℕ, zero, suc, ◌≤◌, ◌≡◌, true, List, [], ◌∷◌, String, string_eq, contains, Eq, length, arith,
  inl, inr,
}
use soro_fuzz.Base.Results.{Result, ok, Result-cases}
use soro_fuzz.Server.Targets.{Manifest, Target, TargetRegistry, from_targets, load, list, get}
use soro_fuzz.Server.Targets.Registry.{IsManifest, target_ids, named, from_targets_lem}
use soro_fuzz.Server.Store.Operations.Created.{ids_of, upsert_targets_has}
use soro_fuzz.Server.Store.Operations.{upsert_targets}
use soro_fuzz.Server.Store.Operations
use soro_fuzz.Server.Store.Postgres.{Database, Surroundings, pg_store}
use soro_fuzz.Server.Worker.{Worker}
use soro_fuzz.Server.Config.{Config, Env, from_env, join}
use soro_fuzz.Server.Start.{Outside, Server, spawn_pool, workers_from, at_least_one, serve, start}

-- What holds of a registry that was built from a manifest.
abbrev pub IsRegistry : TargetRegistry → Type 0
IsRegistry registry =
    IsManifest (list registry) × ((id : String) → get id registry ≡ named id (list registry))

-- What holds of the ids that the targets have holds of each of them.
All-ids :
    (P : String → Type 0) (ts : List Target)
    → ((id : String) → contains (target_ids ts) id ≡ true → P id)
    → All (λ t. P t.id) ts
All-ids P [] h = tt
All-ids P (t ∷ ts) h = (
  h t.id (ground (arith, string_eq.beq_iff t.id t.id)),
  All-ids P ts (λ id there. h id (ground (arith, there))),
)

module _ {I J : Type 0} where
  from_targets-IsRegistry :
      (ts : List Target) (registry : TargetRegistry)
      → from_targets {IoError = I} {JsonError = J} ts ≡ ok registry
      → IsRegistry registry
  from_targets-IsRegistry ts registry h =
      let valid = (from_targets_lem {I = I} {J = J} ts).1 registry h in
      let (r, made, lists, gets) = (from_targets_lem {I = I} {J = J} ts).0 valid in
      let same : r ≡ registry = ground (arith, made, h) in rw (← same, lists) (valid, gets)

  load-IsRegistry :
      (read_to_string : String → Result I String) (from_str : String → Result J Manifest)
      (path : String) (registry : TargetRegistry)
      → load read_to_string from_str path ≡ ok registry
      → IsRegistry registry
  unfolding load
  load-IsRegistry read_to_string from_str path registry h =
      elim (Result-cases (read_to_string path)) [
        | inr (e, failed) ↦ ground (arith, failed, h)
        | inl (raw, was_read) ↦ elim (Result-cases (from_str raw)) [
          | inr (e, failed) ↦ ground (arith, was_read, failed, h)
          | inl (manifest, parsed) ↦
              from_targets-IsRegistry manifest.targets registry
                (ground (arith, was_read, parsed, h))
        ]
      ]

workers_from_starts :
    {S Uuid Sender : Type 0} (worker : ℕ → Worker S Uuid Sender) (count : ℕ)
    → 1 ≤ length (workers_from worker 0 (at_least_one count))
unfolding workers_from
workers_from_starts worker zero = omega arith
workers_from_starts worker (suc n) = omega arith

module _ {Uuid Sender SocketAddr IoError JsonError : Type 0} ⦃e : Eq Uuid⦄
    (around : Surroundings Uuid) (outside : Outside Uuid Sender SocketAddr IoError JsonError) where
  -- The database holds every target that the registry of the server lists.
  abbrev pub IsKnown : Server Uuid Sender SocketAddr → Type 0
  IsKnown server =
      All (λ target. contains (ids_of server.database.tables.targets) target.id ≡ true)
        (list server.app.targets)

  serve-IsKnown :
      (config : Config SocketAddr) (registry : TargetRegistry) (db : Database Uuid)
      → IsKnown (
          serve around outside config registry
            ((pg_store around).sync_targets (list registry) db).1)
  unfolding serve Operations.sync_targets
  serve-IsKnown config registry db =
      All-ids (λ id. contains (ids_of (upsert_targets (list registry) before)) id ≡ true)
        (list registry) (upsert_targets_has (list registry) before)
    where
      before : List Target
      before = (around.others db.transactions db.tables).targets

  serve_starts :
      (config : Config SocketAddr) (registry : TargetRegistry) (db : Database Uuid)
      → 1 ≤ length (serve around outside config registry db).workers
  unfolding serve spawn_pool
  serve_starts config registry db = workers_from_starts _ config.max_concurrent_campaigns

  -- How a server that has started was made.
  abbrev Served : Server Uuid Sender SocketAddr → Type 0
  Served server =
      (config : Config SocketAddr) × (registry : TargetRegistry) × (db : Database Uuid) × IsRegistry
        registry
      × (server
          ≡ serve around outside config registry
              ((pg_store around).sync_targets (list registry) db).1)

  start-Served :
      (env : Env) (server : Server Uuid Sender SocketAddr)
      → start around outside env ≡ ok server
      → Served server
  unfolding start
  start-Served env server h = elim (Result-cases (from_env outside.parse_addr env)) [
    | inr (e, failed) ↦ absurd (ground (arith, failed, h))
    | inl (config, configured) ↦ elim (Result-cases (outside.connect config.database_url)) [
      | inr (e, failed) ↦ absurd (ground (arith, configured, failed, h))
      | inl (connected, c) ↦ elim (Result-cases (outside.migrate connected)) [
        | inr (e, failed) ↦ absurd (ground (arith, configured, c, failed, h))
        | inl (db, m) ↦
            elim (Result-cases (
              load outside.read_to_string outside.from_str
                (join config.targets_dir "targets.json"))) [
                  | inr (e, failed) ↦ absurd (ground (arith, configured, c, m, failed, h))
                  | inl (registry, loaded) ↦ (
                    config,
                    registry,
                    db,
                    load-IsRegistry outside.read_to_string outside.from_str
                        (join config.targets_dir "targets.json") registry loaded,
                    ground (arith, configured, c, m, loaded, h),
                  )
                ]
      ]
    ]
  ]

  pub start_registers :
      (env : Env) (server : Server Uuid Sender SocketAddr)
      → start around outside env ≡ ok server
      → (1 ≤ length server.workers) × IsRegistry server.app.targets × IsKnown server
  unfolding serve
  start_registers env server h =
      let (config, registry, db, valid, served) = start-Served env server h in
      let synced = ((pg_store around).sync_targets (list registry) db).1 in
      rw served (serve_starts config registry synced, valid, serve-IsKnown config registry db)
