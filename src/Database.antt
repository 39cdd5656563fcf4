-- ===== src/Database.antt =====
-- pkg/database: the settings of the connection pool, the level of the query log, and the log (Tracer). The
-- pool itself is pgx's: what parsing the DSN and making the pool give are arguments.
pub mod Pool
pub mod Tracer
mod Tests
use go_skeleton.Base.{
  ℕ, ◌*◌, ◌^◌, ◌-◌, String, Bool, true, false, ◌&&◌, Option, none, some, Result, ok, err,
  if◌then◌else◌,
}
use go_skeleton.Base.Int.{ℤ, pos, leb_ℤ, ltb_ℤ, second, max_int32}
use go_skeleton.Base.Text.{Bytes, codes, beq, is_empty, trim, to_lower}
use go_skeleton.Config.{PostgresConfig}

pub data LogLevel : Type 0 where
  log_silent log_error log_warn log_info : LogLevel

unfoldable pub parse_log_level : Bytes → Option LogLevel
parse_log_level level =
    let l = to_lower (trim level) in
    if beq l (codes "silent")
    then some log_silent
    else if beq l (codes "error")
    then some log_error
    else if beq l (codes "warn")
    then some log_warn
    else if is_empty l
    then some log_warn
    else if beq l (codes "info")
    then some log_info
    else none

pub record PoolSettings : Type 0 where
  pub max_conns : ℤ
  pub min_conns : ℤ
  pub conn_max_lifetime : ℤ
  pub conn_max_idle_time : ℤ

-- The duration, if it is positive.
abbrev pub positive_or : ℤ → ℕ → ℤ
positive_or d default = if ltb_ℤ (pos 0) d then d else pos default

unfoldable pub normalize_pool_settings : PostgresConfig → PoolSettings
normalize_pool_settings cfg =
    let max =
      if ltb_ℤ (pos 0) cfg.max_conns && leb_ℤ cfg.max_conns max_int32
      then cfg.max_conns
      else pos 30 in
    record {
      max_conns = max;
      min_conns =
          if ltb_ℤ (pos 0) cfg.min_conns && leb_ℤ cfg.min_conns max_int32 && leb_ℤ cfg.min_conns max
          then cfg.min_conns
          else pos 0;
      conn_max_lifetime = positive_or cfg.conn_max_lifetime (30 * 60 * second);
      conn_max_idle_time = positive_or cfg.conn_max_idle_time (5 * 60 * second);
    }

pub data PoolError : Type 0 where
  unknown_log_level : PoolError
  unusable : String → PoolError

-- What Init hands to pgx: the settings and the level.
abbrev pub leveled :
    PostgresConfig → Option LogLevel → Option String → Result PoolError (PoolSettings × LogLevel)
leveled cfg none failure = err unknown_log_level
leveled cfg (some level) (some message) = err (unusable message)
leveled cfg (some level) none = ok (normalize_pool_settings cfg, level)

-- Init: no pool without a DSN. `failure` is what pgx says of the DSN, if it refuses it.
unfoldable pub init_pool :
    Option String → PostgresConfig → Result PoolError (Option (PoolSettings × LogLevel))
unfolding parse_log_level normalize_pool_settings
init_pool failure cfg =
    if is_empty (trim cfg.dsn)
    then ok none
    else elim (leveled cfg (parse_log_level cfg.log_level) failure) [
      | err e ↦ err e
      | ok pool ↦ ok (some pool)
    ]
