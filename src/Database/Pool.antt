-- ===== src/Database/Pool.antt =====
-- What the pool gets of any configuration, and of one that validate let through.
use go_skeleton.Base.{◌≡◌, refl, false, none, some, arith, ok}
use mathlib.Core.List.{Memᴰ}
use go_skeleton.Base.Int.{pos, ◌≤ℤ◌, ◌<ℤ◌, max_int32}
use go_skeleton.Base.Text.{Bytes, beq, is_empty, trim, to_lower}
use go_skeleton.Config.{PostgresConfig}
use go_skeleton.Config.Validate.{db_log_levels}
use go_skeleton.Config.Validate.Sound.{IsPoolSound}
use go_skeleton.Database.{
  LogLevel, log_silent, log_error, log_warn, log_info, parse_log_level, PoolSettings,
  normalize_pool_settings, init_pool,
}

-- Settings that pgx takes: its fields are of 32 bits, and its limits in order.
pub record IsUsable (s : PoolSettings) : Type 0 where
  pub some_conns : pos 0 <ℤ s.max_conns
  pub fits : s.max_conns ≤ℤ max_int32
  pub no_debt : pos 0 ≤ℤ s.min_conns
  pub ordered : s.min_conns ≤ℤ s.max_conns
  pub lifetime : pos 0 <ℤ s.conn_max_lifetime
  pub idle_time : pos 0 <ℤ s.conn_max_idle_time

-- Whatever the configuration holds, the pool's settings are in their bounds and in order.
pub normalize_pool_settings-IsUsable :
    (cfg : PostgresConfig) → IsUsable (normalize_pool_settings cfg)
unfolding normalize_pool_settings
normalize_pool_settings-IsUsable cfg = record {
  some_conns = ground arith;
  fits = ground arith;
  no_debt = ground arith;
  ordered = ground arith;
  lifetime = ground arith;
  idle_time = ground arith;
}

level_of_listed :
    (s : Bytes)
    → Memᴰ (to_lower (trim s)) db_log_levels
    → (l : LogLevel) × (parse_log_level s ≡ some l)
unfolding parse_log_level beq
level_of_listed s (Memᴰ.head e) = (log_silent, rw e refl)
level_of_listed s (Memᴰ.tail (Memᴰ.head e)) = (log_error, rw e refl)
level_of_listed s (Memᴰ.tail (Memᴰ.tail (Memᴰ.head e))) = (log_warn, rw e refl)
level_of_listed s (Memᴰ.tail (Memᴰ.tail (Memᴰ.tail (Memᴰ.head e)))) = (log_info, rw e refl)
level_of_listed s (Memᴰ.tail (Memᴰ.tail (Memᴰ.tail (Memᴰ.tail m)))) = elim m [ ]

-- A database configuration that validate let through is used as it is: Init knows its log level, and
-- gives the pool the configured numbers of connections.
pub init_pool_of_IsPoolSound :
    (cfg : PostgresConfig)
    → is_empty (trim cfg.dsn) ≡ false
    → IsPoolSound cfg
    → (s : PoolSettings) × (level : LogLevel) × (init_pool none cfg ≡ ok (some (s, level)))
      × (s.max_conns ≡ cfg.max_conns)
      × (s.min_conns ≡ cfg.min_conns)
unfolding init_pool normalize_pool_settings
init_pool_of_IsPoolSound cfg set sound =
    let (level, known) = level_of_listed cfg.log_level sound.level in
    (normalize_pool_settings cfg, level, rw (set, known) refl, ground arith, ground arith)
