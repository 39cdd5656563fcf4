-- ===== src/Bootstrap.antt =====
-- internal/bootstrap: what a process opens at its start and closes at its end. The calls that open
-- and ping a dependency are not part of the repository: what each gives is in `World`. Every resource
-- that is opened or closed stands in a list, in the order of the events.
pub mod Resources
mod Tests
pub mod Production
use go_skeleton.Base.{
  String, Bool, true, false, not, ◌&&◌, Option, none, some, List, [], ◌∷◌, ◌++◌, reverse, Result,
  ok, err, if◌then◌else◌,
}
use go_skeleton.Base.Text.{Bytes, is_empty, trim}
use go_skeleton.Config.{Config}
use go_skeleton.Database.{PoolError, PoolSettings, LogLevel, init_pool}
use go_skeleton.Auth.{JwtManager, AuthError, new_jwt_manager}

pub data Resource : Type 0 where
  database cache queue_client inspector : Resource

pub data Event : Type 0 where
  opened closed : Resource → Event

-- What pgx says of the DSN, what the two pings give, and what closing gives: none for no error.
pub record World : Type 0 where
  pub open_database : Option String
  pub ping_database : Option String
  pub ping_cache : Option String
  pub close_failure : Resource → Option String

-- What the fields of bootstrap.Registry hold, apart from the configuration; `pool` is that of DB.
pub record Registry : Type 0 where
  pub pool : Bool
  pub cache_client : Bool
  pub queue : Bool
  pub queue_inspector : Bool
  pub auth : Option JwtManager

pub data InitError : Type 0 where
  init_database_failed : PoolError → InitError
  postgres_unreachable redis_unreachable : String → InitError
  init_auth_failed : AuthError → InitError
  init_cache_failed dsn_required redis_address_required : InitError

abbrev managed : Result AuthError JwtManager → Result AuthError (Option JwtManager)
managed (ok m) = ok (some m)
managed (err e) = err e

unfoldable pub init_auth : Config → Result AuthError (Option JwtManager)
init_auth cfg =
    if is_empty (trim cfg.auth.jwt_secret)
    then ok none
    else managed (
        new_jwt_manager (record {
          secret = cfg.auth.jwt_secret;
          issuer = cfg.auth.jwt_issuer;
          ttl = cfg.auth.jwt_ttl;
        }))

-- Whether a Redis is configured, as initCache, newAsynqClient and newAsynqInspector ask.
unfoldable pub has_redis : Config → Bool
has_redis cfg = not (is_empty (trim cfg.redis.addr))

-- runCleanups, of the resources in the order in which they were opened.
abbrev pub closing : List Resource → List Event
closing [] = []
closing (r ∷ rs) = closed r ∷ closing rs

unfoldable pub run_cleanups : List Resource → List Event
run_cleanups cleanups = closing (reverse cleanups)

-- probeDependencies, of those that there are.
abbrev pub probe_cache : Bool → Option String → Option InitError
probe_cache false failure = none
probe_cache true none = none
probe_cache true (some message) = some (redis_unreachable message)

abbrev pub probe_database : Bool → Option String → Option InitError → Option InitError
probe_database false failure next = next
probe_database true none next = next
probe_database true (some message) next = some (postgres_unreachable message)

unfoldable pub probe_dependencies : World → Bool → Bool → Option InitError
probe_dependencies w db redis = probe_database db w.ping_database (probe_cache redis w.ping_cache)

-- cache.NewClient refuses a blank address and nothing else.
unfoldable pub new_cache_client : Bytes → Bool
new_cache_client addr = not (is_empty (trim addr))

abbrev pub Started : Type 0
Started = List Event × Result InitError Registry

abbrev pub opened_if : Bool → Resource → List Resource
opened_if false r = []
opened_if true r = r ∷ []

-- What has happened up to a step of a start, and the cleanups that an error would run.
pub record Opening : Type 0 where
  pub events : List Event
  pub cleanups : List Resource

abbrev pub nothing_open : Opening
nothing_open = record { events = []; cleanups = [] }

-- A call that opens a resource.
abbrev pub open_resource : Resource → Opening → Opening
open_resource r o = record o { events = o.events ++ opened r ∷ [] }

-- append(cleanups, r.Close)
abbrev pub append_cleanup : Resource → Opening → Opening
append_cleanup r o = record o { cleanups = o.cleanups ++ r ∷ [] }

-- An error, after the cleanups.
abbrev pub failing : Opening → InitError → Started
failing o e = (o.events ++ run_cleanups o.cleanups, err e)

-- InitAPI, from its last step to its first.
abbrev pub api_opened : Opening
api_opened = append_cleanup database (open_resource database nothing_open)

abbrev pub api_cached : Bool → Opening
api_cached false = api_opened
api_cached true = append_cleanup cache (open_resource cache api_opened)

-- newAsynqClient and newAsynqInspector.
abbrev pub api_queued : Bool → Opening
api_queued false = api_cached false
api_queued true = open_resource inspector (open_resource queue_client (api_cached true))

abbrev pub api_authorised : Bool → Result AuthError (Option JwtManager) → Started
api_authorised redis (err e) = failing (api_cached redis) (init_auth_failed e)
api_authorised redis (ok manager) = (
  (api_queued redis).events,
  ok (record {
    pool = true;
    cache_client = redis;
    queue = redis;
    queue_inspector = redis;
    auth = manager;
  }),
)

abbrev pub api_probed : Config → Bool → Option InitError → Started
api_probed cfg redis (some e) = failing (api_cached redis) e
api_probed cfg redis none = api_authorised redis (init_auth cfg)

abbrev pub api_database :
    World → Config → Result PoolError (Option (PoolSettings × LogLevel)) → Started
api_database w cfg (err e) = ([], err (init_database_failed e))
api_database w cfg (ok none) = ([], err dsn_required)
api_database w cfg (ok (some pool)) =
    let redis = has_redis cfg in
    if redis && not (new_cache_client cfg.redis.addr)
    then failing api_opened init_cache_failed
    else api_probed cfg redis (probe_dependencies w true redis)

unfoldable pub init_api : World → Config → Started
unfolding has_redis run_cleanups probe_dependencies init_auth new_cache_client
init_api w cfg = api_database w cfg (init_pool w.open_database cfg.postgres)

-- InitWorker, which opens the cache first and a database only where a DSN is set.
abbrev pub worker_cached : Opening
worker_cached = append_cleanup cache (open_resource cache nothing_open)

abbrev pub worker_opened : Bool → Opening
worker_opened false = worker_cached
worker_opened true = append_cleanup database (open_resource database worker_cached)

abbrev pub worker_probed : Bool → Option InitError → Started
worker_probed db (some e) = failing (worker_opened db) e
worker_probed db none = (
  (open_resource queue_client (worker_opened db)).events,
  ok (record {
    pool = db;
    cache_client = true;
    queue = true;
    queue_inspector = false;
    auth = none;
  }),
)

abbrev pub worker_database : World → Result PoolError (Option (PoolSettings × LogLevel)) → Started
worker_database w (err e) = failing worker_cached (init_database_failed e)
worker_database w (ok none) = worker_probed false (probe_dependencies w false true)
worker_database w (ok (some pool)) = worker_probed true (probe_dependencies w true true)

unfoldable pub init_worker : World → Config → Started
unfolding has_redis run_cleanups probe_dependencies new_cache_client
init_worker w cfg =
    if is_empty (trim cfg.redis.addr)
    then ([], err redis_address_required)
    else if not (new_cache_client cfg.redis.addr)
    then ([], err init_cache_failed)
    else worker_database w (init_pool w.open_database cfg.postgres)

-- The resources of a registry, in the order in which Close goes through them.
abbrev pub held : Registry → List Resource
held reg =
    opened_if reg.queue_inspector inspector
    ++ (opened_if reg.queue queue_client
        ++ (opened_if reg.cache_client cache ++ opened_if reg.pool database))

abbrev pub close_errors : (Resource → Option String) → List Resource → List (Resource × String)
close_errors failure [] = []
close_errors failure (r ∷ rs) = elim (failure r) [
  | none ↦ close_errors failure rs
  | some message ↦ (r, message) ∷ close_errors failure rs
]

-- (*Registry).Close: the next resource is closed also where one could not be.
unfoldable pub close_registry : World → Registry → List Event × List (Resource × String)
close_registry w reg = (closing (held reg), close_errors w.close_failure (held reg))
