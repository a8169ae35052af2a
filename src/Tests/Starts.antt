-- ===== src/Tests/Starts.antt =====
-- The theorem on the start of the server at a concrete environment.
use soro_fuzz.Base.{
  ℕ, ◌≤◌, ◌≡◌, refl, none, some, [], ◌∷◌, string_eq, nat_eq, ◌==◌, length, is_blank, if◌then◌else◌,
}
use soro_fuzz.Base.Results.{ok}
use soro_fuzz.Server.Store.Operations.Reachable.{empty_tables}
use soro_fuzz.Server.Store.Operations
use soro_fuzz.Server.Config.{local, Config, Env, from_env}
use soro_fuzz.Server.Start.{Outside, Server, serve, start}
use soro_fuzz.Server.Start.Known.{IsRegistry, IsKnown, start_registers}
use soro_fuzz.Tests.Stores.{counter_target}
use soro_fuzz.Tests.Servers.{quiet, database_of, registry}
use soro_fuzz.Tests.Processes.{no_match, crash}

abbrev env : Env
env name =
    if name == "TARGETS_DIR"
    then some "targets"
    else if name == "DATABASE_URL"
    then some "postgres://db"
    else none

abbrev outside : Outside ℕ ℕ ℕ ℕ ℕ
outside = record {
  parse_addr = λ s. ok 8080;
  connect = λ url. ok (database_of (empty_tables []));
  migrate = λ db. ok db;
  read_to_string = λ path. ok "the manifest";
  from_str = λ raw. ok (record { targets = counter_target ∷ [] });
  run_with_timeout = λ command timeout. ok crash;
  regex = no_match;
  channel = λ n capacity. n;
  process_id = 1;
}

abbrev config : Config ℕ
config = record {
  database_url = "postgres://db";
  http_addr = 8080;
  targets_dir = "targets";
  default_budget_secs = 60;
  max_concurrent_campaigns = 2;
  rust_toolchain = "nightly";
  fuzz_sanitizer = none;
  fuzz_sandbox = local;
  fuzz_workspace_dir = "targets/../fuzz";
  job_timeout = 600;
  log_level = "info";
}

configured : from_env outside.parse_addr env ≡ ok config
unfolding from_env
configured = refl

abbrev server : Server ℕ ℕ ℕ
server =
    serve quiet outside config registry
      (record { tables = empty_tables (counter_target ∷ []); transactions = 1; generated = 0 })

started : start quiet outside env ≡ ok server
unfolding start is_blank Operations.sync_targets
started = refl

start_registers_example :
    (1 ≤ length server.workers) × IsRegistry server.app.targets × IsKnown quiet outside server
start_registers_example = start_registers quiet outside env server started
