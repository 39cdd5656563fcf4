-- ===== src/Database/Tests.antt =====
-- The settings of the pool at one configuration.
use go_skeleton.Base.{◌≡◌, refl, false, arith}
use mathlib.Core.List.{Memᴰ}
use go_skeleton.Base.Int.{pos, negsuc, second}
use go_skeleton.Base.Text.{codes, trim, to_lower, is_empty}
use go_skeleton.Config.{PostgresConfig}
use go_skeleton.Config.Validate.Sound.{IsPoolSound}
use go_skeleton.Database.{normalize_pool_settings}
use go_skeleton.Database.Pool.{IsUsable, normalize_pool_settings-IsUsable}

abbrev eight : PostgresConfig
eight = record {
  dsn = codes "postgres://db";
  log_level = codes " ERROR";
  max_conns = pos 8;
  min_conns = pos 2;
  conn_max_lifetime = pos second;
  conn_max_idle_time = pos 0;
}

abbrev disordered : PostgresConfig
disordered = record eight { max_conns = negsuc 0; min_conns = pos 40 }

normalize_pool_settings-IsUsable_example : IsUsable (normalize_pool_settings disordered)
normalize_pool_settings-IsUsable_example = normalize_pool_settings-IsUsable disordered

eight-IsPoolSound : IsPoolSound eight
unfolding trim to_lower
eight-IsPoolSound = record {
  some_conns = omega arith;
  few_conns = omega arith;
  no_debt = omega arith;
  ordered = omega arith;
  level = Memᴰ.tail (Memᴰ.head refl);
}

dsn_given : is_empty (trim eight.dsn) ≡ false
unfolding trim
dsn_given = refl
