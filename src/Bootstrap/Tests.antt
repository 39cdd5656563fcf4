-- ===== src/Bootstrap/Tests.antt =====
-- Starts of processes in one world, and a process in production.
use go_skeleton.Base.{◌*◌, ◌≤◌, ◌<◌, ◌≡◌, refl, none, some, [], ◌∷◌, ok, length}
use go_skeleton.Base.Int.{pos, ◌<ℤ◌, second}
use go_skeleton.Base.Text.{codes, trim, to_lower, has_prefix, beq}
use go_skeleton.Errcode
use go_skeleton.Wire.{Body}
use go_skeleton.Gin.{final}
use go_skeleton.Gin.Recording.{recording}
use go_skeleton.Response.{coded, write_error}
use go_skeleton.Response.Sample.{context_at}
use go_skeleton.Model.{Time}
use go_skeleton.Auth.{JwtManager, parse_token, new_jwt_manager, normalize_bearer_token}
use go_skeleton.Auth.Sample.{sample, ada}
use go_skeleton.Config.{Config}
use go_skeleton.Config.Env.{get_env_or_default, duration_env, parsed_env}
use go_skeleton.Config.Load.{load, read_config}
use go_skeleton.Config.Sample.{minute_only, in_production, loaded, is_in_production}
use go_skeleton.Handler.Auth.{create_token}
use go_skeleton.Bootstrap.{
  database, cache, Event, World, init_api, init_worker, init_auth, probe_dependencies, run_cleanups,
  has_redis, new_cache_client,
}
use go_skeleton.Database.{init_pool, normalize_pool_settings, parse_log_level}
use go_skeleton.Bootstrap.Resources.{
  EndsNested, init_api-EndsNested, EndsBalanced, init_worker-EndsBalanced,
}
use go_skeleton.Bootstrap.Production.{
  new_auth_handler, production_issues_nothing, production_accepts_own,
}

abbrev database_down : World
database_down = record {
  open_database = none;
  ping_database = some "refused";
  ping_cache = none;
  close_failure = λ r. some "closed already";
}

abbrev cfg : Config
cfg = (load minute_only in_production).0

abbrev with_redis : Config
with_redis = record cfg {
  postgres = record cfg.postgres { dsn = codes "postgres://db" };
  redis = record cfg.redis { addr = codes "redis:6379" };
}

init_api-EndsNested_example : EndsNested database_down (init_api database_down with_redis)
init_api-EndsNested_example = init_api-EndsNested database_down with_redis

init_worker-EndsBalanced_example : EndsBalanced database_down (init_worker database_down with_redis)
init_worker-EndsBalanced_example = init_worker-EndsBalanced database_down with_redis

abbrev production_manager : JwtManager
production_manager = record {
  secret = codes "0123456789abcdef0123456789abcdef";
  issuer = codes "go-skeleton";
  ttl = pos (60 * second);
}

manages : init_auth cfg ≡ ok (some production_manager)
unfolding init_auth new_jwt_manager load read_config get_env_or_default duration_env parsed_env trim
    beq
manages = refl

accepts : parse_token sample production_manager (64 * second) (codes "tok") ≡ ok ada
unfolding parse_token normalize_bearer_token trim to_lower has_prefix beq
accepts = refl

production_issues_nothing_example :
    (m : JwtManager) × (init_auth cfg ≡ ok (some m))
    × (32 ≤ length (trim m.secret))
    × (pos 0 <ℤ m.ttl)
    × (final (
          create_token sample
            (recording Body)
            (new_auth_handler cfg (some m))
            (ok (codes "ada"))
            (context_at 5))
        ≡ write_error (recording Body) (coded Errcode.service_disabled) (context_at 5))
production_issues_nothing_example =
    production_issues_nothing minute_only in_production loaded is_in_production sample
      (recording Body) (ok (codes "ada")) (context_at 5)

production_accepts_own_example :
    (ada.issuer ≡ trim cfg.auth.jwt_issuer)
    × ((e : Time) × (ada.expires_at ≡ some e) × (64 * second < e))
production_accepts_own_example =
    production_accepts_own minute_only in_production loaded is_in_production sample
      production_manager (64 * second) (codes "tok") ada manages accepts

-- A start that cannot reach its database closes what it has opened, the last first.
undone :
    (init_api database_down with_redis).0
    ≡ Event.opened database ∷ Event.opened cache ∷ Event.closed cache ∷ Event.closed database ∷ []
unfolding init_api init_pool normalize_pool_settings parse_log_level probe_dependencies run_cleanups
    has_redis new_cache_client load read_config get_env_or_default trim to_lower beq
undone = refl
