-- ===== src/Config.antt =====
-- config/types.go: the configuration of a process. A duration is its number of nanoseconds; the
-- variables of the environment are read by Env and Load, and Validate has the checks at start-up.
pub mod Env
pub mod Validate
pub mod Load
pub mod Warnings
pub mod Sample
mod Tests
use go_skeleton.Base.{Bool, true, false, List}
use go_skeleton.Base.Int.{ℤ}
use go_skeleton.Base.Text.{Bytes}
use go_skeleton.Base.Dict.{Dict}

-- config.Environment: the two values that environmentEnv lets through.
pub data Environment : Type 0 where
  development production : Environment

unfoldable pub is_production : Environment → Bool
is_production production = true
is_production development = false

pub record ServerConfig : Type 0 where
  pub port : Bytes
  pub gin_mode : Bytes
  pub trusted_proxies : List Bytes
  pub request_timeout : ℤ
  pub startup_probe_timeout : ℤ
  pub graceful_drain : ℤ
  pub pprof_enabled : Bool
  pub pprof_addr : Bytes
  pub watchdog_interval : ℤ
  pub security_headers_enabled : Bool
  pub body_max_bytes : ℤ
  pub metrics_enabled : Bool
  pub metrics_addr : Bytes

pub record DocsConfig : Type 0 where
  pub title : Bytes
  pub theme : Bytes
  pub hide_try_it : Bool
  pub hide_schemas : Bool
  pub layout : Bytes
  pub logo : Bytes

pub record PostgresConfig : Type 0 where
  pub dsn : Bytes
  pub log_level : Bytes
  pub max_conns : ℤ
  pub min_conns : ℤ
  pub conn_max_lifetime : ℤ
  pub conn_max_idle_time : ℤ

pub record RedisConfig : Type 0 where
  pub addr : Bytes
  pub password : Bytes
  pub cache_db : ℤ
  pub queue_db : ℤ
  pub pool_size : ℤ
  pub min_idle_conns : ℤ

pub record AuthConfig : Type 0 where
  pub jwt_secret : Bytes
  pub jwt_issuer : Bytes
  pub jwt_ttl : ℤ
  pub dev_token_endpoint_enabled : Bool

pub record CorsConfig : Type 0 where
  pub allow_origins : List Bytes
  pub allow_credentials : Bool

pub record LogConfig : Type 0 where
  pub level : Bytes
  pub format : Bytes
  pub stacktrace_level : Bytes
  pub audit_enabled : Bool
  pub audit_excludes : List Bytes

pub record RateLimitConfig : Type 0 where
  pub requests_per_minute : ℤ

pub record WorkerConfig : Type 0 where
  pub concurrency : ℤ
  pub queues : Dict ℤ
  pub retry_base_delay : ℤ
  pub retry_max_delay : ℤ
  pub metrics_addr : Bytes

pub record Config : Type 0 where
  pub env : Environment
  pub server : ServerConfig
  pub docs : DocsConfig
  pub postgres : PostgresConfig
  pub redis : RedisConfig
  pub auth : AuthConfig
  pub cors : CorsConfig
  pub log : LogConfig
  pub rate_limit : RateLimitConfig
  pub worker : WorkerConfig
