-- ===== src/Server/Start.antt =====
-- crates/server/src/main.rs: what is set up before the server listens, and `spawn_pool` of
-- worker/mod.rs. The environment, the file of the targets, the connection to the database and its
-- migrations are parameters.
pub mod Known
use soro_fuzz.Base.{ℕ, zero, suc, Option, List, [], ◌∷◌, ◌++◌, String, concat, display_ℕ, Eq}
use soro_fuzz.Base.Results.{Result, ok, err, ◌>>=◌, map_err}
use soro_fuzz.Int.{pos, as_i64}
use soro_fuzz.Server.Targets.{Manifest, Target, TargetsError, TargetRegistry, load, list}
use soro_fuzz.Server.Store.Interface.{StoreError, Store}
use soro_fuzz.Server.Store.Postgres.{Database, Surroundings, pg_store}
use soro_fuzz.Server.Runner
use soro_fuzz.Server.Runner.Output.{Regex}
use soro_fuzz.Server.Runner.Subprocess.{
  Sandbox, RunWithTimeout, local_sandbox, docker_exec_sandbox, SubprocessRunner, run,
}
use soro_fuzz.Server.Worker.{Worker}
use soro_fuzz.Server.Api.{AppState}
use soro_fuzz.Server.Config.{
  ConfigError, SandboxKind, local, docker_exec, Config, Env, from_env, join,
}

-- The errors by which `main` returns before it listens.
pub data StartError (IoError JsonError : Type 0) : Type 0 where
  configuration : ConfigError → StartError IoError JsonError
  store_failed : StoreError → StartError IoError JsonError
  targets_failed : TargetsError IoError JsonError → StartError IoError JsonError

-- What `main` takes from the operating system and the libraries.
pub record Outside (Uuid Sender SocketAddr IoError JsonError : Type 0) : Type 0 where
  pub parse_addr : String → Result String SocketAddr
  pub connect : String → Result StoreError (Database Uuid)
  pub migrate : Database Uuid → Result StoreError (Database Uuid)
  pub read_to_string : String → Result IoError String
  pub from_str : String → Result JsonError Manifest
  pub run_with_timeout : RunWithTimeout
  pub regex : Regex
  pub channel : ℕ → ℕ → Sender
  pub process_id : ℕ

-- The state of the database, the workers that were started, and what the handlers share.
pub record Server (Uuid Sender SocketAddr : Type 0) : Type 0 where
  pub database : Database Uuid
  pub workers : List (Worker (Database Uuid) Uuid Sender)
  pub app : AppState (Database Uuid) Uuid Sender
  pub http_addr : SocketAddr

unfoldable pub sandbox_of : RunWithTimeout → SandboxKind → Sandbox
sandbox_of run_with_timeout local = local_sandbox run_with_timeout
sandbox_of run_with_timeout (docker_exec container) = docker_exec_sandbox run_with_timeout container

unfoldable pub worker_id : ℕ → ℕ → String
worker_id process_id i = concat ("worker-" ∷ display_ℕ process_id ∷ "-" ∷ display_ℕ i ∷ [])

-- The workers from the `i`-th on.
unfoldable pub workers_from :
    {S Uuid Sender : Type 0} → (ℕ → Worker S Uuid Sender) → ℕ → ℕ → List (Worker S Uuid Sender)
workers_from worker i zero = []
workers_from worker i (suc k) = worker i ∷ workers_from worker (suc i) k

-- `count.max(1)`
abbrev pub at_least_one : ℕ → ℕ
at_least_one zero = 1
at_least_one (suc n) = suc n

unfoldable pub spawn_pool :
    {S Uuid Sender : Type 0}
    → ℕ
    → (ℕ → ℕ → Sender)
    → ℕ
    → Store S Uuid
    → Runner.Runner Uuid
    → TargetRegistry
    → Option String
    → List (Worker S Uuid Sender)
unfolding workers_from worker_id
spawn_pool process_id channel count store runner targets fuzz_sanitizer =
    workers_from
      (λ i. record {
        id = worker_id process_id i;
        store = store;
        runner = runner;
        targets = targets;
        channel = channel;
        fuzz_sanitizer = fuzz_sanitizer;
      })
      0 (at_least_one count)

-- A call of the store, of which the state is kept when it succeeds.
abbrev pub stored : {S A E : Type 0} → (StoreError → E) → Result StoreError A × S → Result E S
stored wrap (ok a, s) = ok s
stored wrap (err e, s) = err (wrap e)

module _ {Uuid Sender SocketAddr IoError JsonError : Type 0} ⦃e : Eq Uuid⦄
    (around : Surroundings Uuid) (outside : Outside Uuid Sender SocketAddr IoError JsonError) where
  -- What is made of the configuration, once the targets are in the database.
  unfoldable pub serve :
      Config SocketAddr → TargetRegistry → Database Uuid → Server Uuid Sender SocketAddr
  unfolding sandbox_of spawn_pool run
  serve config targets db =
      let runner : Runner.Runner Uuid = run outside.regex (record {
        sandbox = sandbox_of outside.run_with_timeout config.fuzz_sandbox;
        fuzz_workspace_dir = config.fuzz_workspace_dir;
        rust_toolchain = config.rust_toolchain;
        fuzz_sanitizer = config.fuzz_sanitizer;
        job_timeout = config.job_timeout;
      }) in
      record {
        database = db;
        workers =
            spawn_pool outside.process_id outside.channel config.max_concurrent_campaigns
              (pg_store around) runner targets config.fuzz_sanitizer;
        app = record {
          store = pg_store around;
          targets = targets;
          progress = record { channels = []; created = 0 };
          max_time_budget_secs = as_i64 (pos config.job_timeout);
        };
        http_addr = config.http_addr;
      }

  unfoldable pub start : Env → Result (StartError IoError JsonError) (Server Uuid Sender SocketAddr)
  unfolding from_env load list serve join
  start env = do
    config ← map_err configuration (from_env outside.parse_addr env)
    connected ← map_err store_failed (outside.connect config.database_url)
    migrated ← map_err store_failed (outside.migrate connected)
    targets ←
        map_err targets_failed
          (load outside.read_to_string outside.from_str (join config.targets_dir "targets.json"))
    db ← stored store_failed ((pg_store around).sync_targets (list targets) migrated)
    ok (serve config targets db)
