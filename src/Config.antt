-- ===== src/Config.antt =====
-- The configuration, read from the environment (internal/config/config.go).
pub mod Loaded
use lillian_backend.Common.{
  ℕ, ◌+◌, ◌-◌, ◌*◌, ◌%◌, ◌^◌, ℤ, pos, negsuc, Text, codes, text_eq, trim_space, trim_right_of,
  to_lower, is_nil, contains, atoi, ltb, leb_ℤ, not, ◌||◌, Bool, true, false, Option, none, some,
  [], ◌++◌, if◌then◌else◌, Result, ok, err,
}
use lillian_backend.Http.{EpusdtConfig}

pub record DatabaseConfig : Type 0 where
  pub pool_max_conns : ℤ
  pub pool_min_conns : ℤ

pub record StorageConfig : Type 0 where
  pub endpoint : Text
  pub region : Text
  pub bucket : Text
  pub access_key_id : Text
  pub secret_access_key : Text
  pub public_base_url : Text
  pub force_path_style : Bool

pub record Config : Type 0 where
  pub service_name : Text
  pub version : Text
  pub environment : Text
  pub listen_addr : Text
  pub public_api_base_url : Text
  pub cors_origin : Text
  pub admin_token : Text
  pub license_key_pepper : Text
  pub provider_secret : Text
  pub database_url : Text
  pub database : DatabaseConfig
  pub auto_migrate : Bool
  pub migrations_dir : Text
  -- In nanoseconds.
  pub upstream_timeout : ℤ
  pub task_poll_interval : ℤ
  pub task_worker_concurrency : ℤ
  pub storage : StorageConfig
  pub epusdt : EpusdtConfig

-- An int64 that has wrapped around.
unfoldable pub wrap_int64 : ℕ → ℤ
wrap_int64 n = let r = n % 2 ^ 64 in if ltb r (2 ^ 63) then pos r else negsuc (2 ^ 64 - 1 - r)

-- time.Duration(seconds) * time.Second, of a positive number of seconds
unfoldable pub of_seconds : ℤ → ℤ
unfolding wrap_int64
of_seconds (pos n) = wrap_int64 (n * 10 ^ 9)
of_seconds (negsuc n) = pos 0

abbrev pub default_upstream_timeout : ℤ
default_upstream_timeout = pos (600 * 10 ^ 9)

abbrev pub default_task_poll_interval : ℤ
default_task_poll_interval = pos (2 * 10 ^ 9)

abbrev pub default_task_worker_concurrency : ℤ
default_task_worker_concurrency = pos 2

-- Over os.Getenv: a variable that is not set is the empty text.
module _ (getenv : Text → Text) where
  unfoldable pub string_env : Text → Text → Text
  string_env name fallback =
      let value = trim_space (getenv name) in if is_nil value then fallback else value

  positive_number : Option ℤ → Option ℤ
  positive_number none = none
  positive_number (some n) = if leb_ℤ n (pos 0) then none else some n

  unfoldable pub int_env : Text → ℤ → ℤ
  unfolding positive_number
  int_env name fallback =
      let value = trim_space (getenv name) in
      if is_nil value
      then fallback
      else elim (positive_number (atoi value)) [ none ↦ fallback | some n ↦ n ]

  unfoldable pub bool_env : Text → Bool → Bool
  bool_env name fallback =
      let value = trim_space (to_lower (getenv name)) in
      if is_nil value
      then fallback
      else text_eq value (codes "1")
        || text_eq value (codes "true")
        || text_eq value (codes "yes")
        || text_eq value (codes "on")

  unfoldable pub duration_seconds_env : Text → ℤ → ℤ
  unfolding positive_number of_seconds
  duration_seconds_env name fallback =
      let value = trim_space (getenv name) in
      if is_nil value
      then fallback
      else elim (positive_number (atoi value)) [ none ↦ fallback | some n ↦ of_seconds n ]

  -- A value without the slashes at its end.
  abbrev pub url_env : Text → Text
  url_env name = trim_right_of b'/' (string_env name [])

  unfoldable pub listen_addr_env : Text
  unfolding string_env
  listen_addr_env =
      let host = string_env (codes "HOST") (codes "0.0.0.0") in
      if contains host (codes ":")
      then host
      else host ++ (codes ":" ++ string_env (codes "PORT") (codes "8787"))

  unfoldable pub config_of : Text → Config
  unfolding string_env int_env bool_env duration_seconds_env listen_addr_env
  config_of version = record {
    service_name = string_env (codes "SERVICE_NAME") (codes "lillian-backend");
    version = if is_nil version then codes "dev" else version;
    environment = string_env (codes "APP_ENV") (codes "local");
    listen_addr = listen_addr_env;
    public_api_base_url = url_env (codes "PUBLIC_API_BASE_URL");
    cors_origin = string_env (codes "CORS_ORIGIN") (codes "*");
    admin_token = string_env (codes "ADMIN_TOKEN") [];
    license_key_pepper = string_env (codes "LICENSE_KEY_PEPPER") [];
    provider_secret = string_env (codes "PROVIDER_CREDENTIAL_SECRET") [];
    database_url = string_env (codes "DATABASE_URL") [];
    database = record {
      pool_max_conns = int_env (codes "DB_POOL_MAX_CONNS") (pos 0);
      pool_min_conns = int_env (codes "DB_POOL_MIN_CONNS") (pos 0);
    };
    auto_migrate = bool_env (codes "AUTO_MIGRATE") true;
    migrations_dir = string_env (codes "MIGRATIONS_DIR") (codes "migrations");
    upstream_timeout =
        duration_seconds_env (codes "UPSTREAM_TIMEOUT_SECONDS") default_upstream_timeout;
    task_poll_interval =
        duration_seconds_env (codes "TASK_POLL_INTERVAL_SECONDS") default_task_poll_interval;
    task_worker_concurrency =
        int_env (codes "TASK_WORKER_CONCURRENCY") default_task_worker_concurrency;
    storage = record {
      endpoint = url_env (codes "S3_ENDPOINT");
      region = string_env (codes "S3_REGION") (codes "auto");
      bucket = string_env (codes "S3_BUCKET") [];
      access_key_id = string_env (codes "S3_ACCESS_KEY_ID") [];
      secret_access_key = string_env (codes "S3_SECRET_ACCESS_KEY") [];
      public_base_url = url_env (codes "S3_PUBLIC_BASE_URL");
      force_path_style = bool_env (codes "S3_FORCE_PATH_STYLE") true;
    };
    epusdt = record {
      base_url = url_env (codes "EPUSDT_BASE_URL");
      pid = string_env (codes "EPUSDT_PID") [];
      secret_key = string_env (codes "EPUSDT_SECRET_KEY") [];
      currency = string_env (codes "EPUSDT_CURRENCY") (codes "USDT");
      token = string_env (codes "EPUSDT_TOKEN") (codes "USDT");
      network = string_env (codes "EPUSDT_NETWORK") (codes "TRON");
    };
  }

  unfoldable pub load : Text → Result Text Config
  unfolding config_of
  load version =
      let cfg = config_of version in
      if leb_ℤ cfg.task_worker_concurrency (pos 0)
      then err (codes "TASK_WORKER_CONCURRENCY must be positive")
      else ok cfg
