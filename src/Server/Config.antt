-- ===== src/Server/Config.antt =====
-- crates/server/src/config.rs: the configuration, from the environment. The reader of a socket
-- address is a parameter.
pub mod Sandbox
use soro_fuzz.Base.{
  ℕ, zero, suc, ◌+◌, ◌≤◌, Bool, true, false, ◌&&◌, not, Option, none, some, List, [], ◌∷◌, String,
  string_eq, ◌==◌, concat, leb, nat_beq, unwrap_or, if◌then◌else◌,
}
use Prim.Native.Char.{code}
use soro_fuzz.Base.Parse.{digits, is_empty}
use soro_fuzz.Base.Results.{Result, ok, err, ◌>>=◌, map_err}

pub data ConfigError : Type 0 where
  missing : String → ConfigError
  invalid : String → String → String → ConfigError  -- name, value, reason

pub data SandboxKind : Type 0 where
  local : SandboxKind
  docker_exec : String → SandboxKind  -- container

pub record Config (SocketAddr : Type 0) : Type 0 where
  pub database_url : String
  pub http_addr : SocketAddr
  pub targets_dir : String
  pub default_budget_secs : ℕ  -- u32
  pub max_concurrent_campaigns : ℕ  -- usize
  pub rust_toolchain : String
  pub fuzz_sanitizer : Option String
  pub fuzz_sandbox : SandboxKind
  pub fuzz_workspace_dir : String
  pub job_timeout : ℕ  -- u64, seconds
  pub log_level : String

-- `raw.split_once(':')`
unfoldable pub split_once : String → Option (String × String)
split_once String.[] = none
split_once (String.◌∷◌ c s) =
    let rest = split_once s in
    if nat_beq (code c) b':'
    then some (String.[], s)
    else elim rest [ none ↦ none | some (before, after) ↦ some (String.◌∷◌ c before, after) ]

abbrev invalid_sandbox : String → ConfigError
invalid_sandbox raw =
    invalid "FUZZ_SANDBOX" raw "expected `local` or `docker-exec:<container-name>`"

unfoldable pub parse_sandbox : String → Result ConfigError SandboxKind
unfolding split_once
parse_sandbox raw = elim (split_once raw) [
  | none ↦ if raw == "local" then ok local else err (invalid_sandbox raw)
  | some (kind, container) ↦
      if kind == "docker-exec" && not (is_empty container)
      then ok (docker_exec container)
      else err (invalid_sandbox raw)
]

-- `str::parse` for an unsigned type with the maximum, and the texts of its errors.
unfoldable pub parse_uint : ℕ → String → Result String ℕ
unfolding digits
parse_uint max String.[] = err "cannot parse integer from empty string"
parse_uint max (String.◌∷◌ c s) =
    elim (if nat_beq (code c) b'+' then digits s else digits (String.◌∷◌ c s)) [
      | none ↦ err "invalid digit found in string"
      | some n ↦ if leb n max then ok n else err "number too large to fit in target type"
    ]

abbrev pub Env : Type 0
Env = String → Option String

unfoldable pub required : Env → String → Result ConfigError String
required env name = elim (env name) [ none ↦ err (missing name) | some value ↦ ok value ]

unfoldable pub parse_default :
    {A : Type 0} → Env → (String → Result String A) → String → String → Result ConfigError A
parse_default env parse name default_ =
    let raw = unwrap_or (env name) default_ in map_err (invalid name raw) (parse raw)

-- `filter(|s| !s.is_empty())`
abbrev pub nonempty : Option String → Option String
nonempty none = none
nonempty (some s) = if is_empty s then none else some s

-- `Path::join` with a relative path
unfoldable pub ends_in_slash : String → Bool
ends_in_slash String.[] = true
ends_in_slash (String.◌∷◌ c s) =
    let rest = ends_in_slash s in if is_empty s then nat_beq (code c) b'/' else rest

unfoldable pub join : String → String → String
unfolding ends_in_slash
join dir name =
    if ends_in_slash dir then concat (dir ∷ name ∷ []) else concat (dir ∷ "/" ∷ name ∷ [])

unfoldable pub from_env :
    {SocketAddr : Type 0}
    → (String → Result String SocketAddr)
    → Env
    → Result ConfigError (Config SocketAddr)
unfolding required parse_default parse_uint parse_sandbox join
from_env parse_addr env = do
  targets_dir ← required env "TARGETS_DIR"
  database_url ← required env "DATABASE_URL"
  http_addr ← parse_default env parse_addr "HTTP_ADDR" "0.0.0.0:8080"
  default_budget_secs ← parse_default env (parse_uint 4294967295) "DEFAULT_BUDGET_SECONDS" "60"
  max_concurrent_campaigns ←
      parse_default env (parse_uint 18446744073709551615) "MAX_CONCURRENT_CAMPAIGNS" "2"
  fuzz_sandbox ← parse_sandbox (unwrap_or (env "FUZZ_SANDBOX") "local")
  job_timeout ← parse_default env (parse_uint 18446744073709551615) "JOB_TIMEOUT_SECONDS" "600"
  ok (record {
    database_url = database_url;
    http_addr = http_addr;
    targets_dir = targets_dir;
    default_budget_secs = default_budget_secs;
    max_concurrent_campaigns = max_concurrent_campaigns;
    rust_toolchain = unwrap_or (env "RUST_TOOLCHAIN") "nightly";
    fuzz_sanitizer = nonempty (env "FUZZ_SANITIZER");
    fuzz_sandbox = fuzz_sandbox;
    fuzz_workspace_dir = unwrap_or (env "FUZZ_WORKSPACE_DIR") (join (join targets_dir "..") "fuzz");
    job_timeout = job_timeout;
    log_level = unwrap_or (env "LOG_LEVEL") "info";
  })
