-- ===== src/Bootstrap/Resources.antt =====
-- What is opened at the start of a process is closed, whether the start succeeds or not.
use go_skeleton.Base.{
  ℕ, ◌+◌, ◌≡◌, refl, Bool, true, false, not, ◌&&◌, Option, none, some, List, [], ◌∷◌, ◌++◌, reverse,
  Result, ok, err, if◌then◌else◌,
}
use go_skeleton.Base.Text.{is_empty, trim}
use go_skeleton.Config.{Config}
use go_skeleton.Auth.{JwtManager, AuthError}
use go_skeleton.Database.{PoolError, PoolSettings, LogLevel, init_pool}
use go_skeleton.Bootstrap.{
  Resource, database, cache, queue_client, inspector, Event, World, InitError, closing,
  run_cleanups, Started, init_api, init_worker, close_registry, api_database, api_probed,
  api_opened, api_authorised, init_auth, has_redis, probe_dependencies, worker_database,
  worker_probed, new_cache_client, failing, init_cache_failed, redis_address_required,
}

abbrev pub opening : List Resource → List Event
opening [] = []
opening (r ∷ rs) = Event.opened r ∷ opening rs

-- All that a start that fails has opened is closed again, the last first.
abbrev pub Undone : List Event → Type 0
Undone events = (rs : List Resource) × (events ≡ opening rs ++ closing (reverse rs))

-- How a start ends: undone, or with a registry whose Close ends what was opened, the last first.
abbrev pub EndsNested : World → Started → Type 0
EndsNested w (events, err e) = Undone events
EndsNested w (events, ok reg) =
    (rs : List Resource) × (events ≡ opening rs) × ((close_registry w reg).0 ≡ closing (reverse rs))

api_authorised-EndsNested :
    (w : World) (redis : Bool) (r : Result AuthError (Option JwtManager))
    → EndsNested w (api_authorised redis r)
unfolding run_cleanups close_registry
api_authorised-EndsNested w true (err e) = (database ∷ cache ∷ [], refl)
api_authorised-EndsNested w false (err e) = (database ∷ [], refl)
api_authorised-EndsNested w true (ok m) =
    (database ∷ cache ∷ queue_client ∷ inspector ∷ [], refl, refl)
api_authorised-EndsNested w false (ok m) = (database ∷ [], refl, refl)

api_probed-EndsNested :
    (w : World) (cfg : Config) (redis : Bool) (o : Option InitError)
    → EndsNested w (api_probed cfg redis o)
unfolding run_cleanups
api_probed-EndsNested w cfg true (some e) = (database ∷ cache ∷ [], refl)
api_probed-EndsNested w cfg false (some e) = (database ∷ [], refl)
api_probed-EndsNested w cfg redis none = api_authorised-EndsNested w redis (init_auth cfg)

if-EndsNested :
    (w : World) (b : Bool) (s t : Started)
    → EndsNested w s
    → EndsNested w t
    → EndsNested w (if b then s else t)
if-EndsNested w true s t h k = h
if-EndsNested w false s t h k = k

api_database-EndsNested :
    (w : World) (cfg : Config) (r : Result PoolError (Option (PoolSettings × LogLevel)))
    → EndsNested w (api_database w cfg r)
unfolding run_cleanups
api_database-EndsNested w cfg (err e) = ([], refl)
api_database-EndsNested w cfg (ok none) = ([], refl)
api_database-EndsNested w cfg (ok (some pool)) =
    if-EndsNested w (has_redis cfg && not (new_cache_client cfg.redis.addr))
      (failing api_opened init_cache_failed)
      (api_probed cfg (has_redis cfg) (probe_dependencies w true (has_redis cfg)))
      (database ∷ [], refl)
      (api_probed-EndsNested w cfg (has_redis cfg) (probe_dependencies w true (has_redis cfg)))

-- An API process leaks nothing: InitAPI, whichever of its steps fails, closes what it had opened, the
-- last first; and where it succeeds, Close ends all that it has opened, the last first, also if closing
-- one of them fails.
pub init_api-EndsNested : (w : World) (cfg : Config) → EndsNested w (init_api w cfg)
unfolding init_api
init_api-EndsNested w cfg = api_database-EndsNested w cfg (init_pool w.open_database cfg.postgres)

same_resource : Resource → Resource → Bool
same_resource database database = true
same_resource cache cache = true
same_resource queue_client queue_client = true
same_resource inspector inspector = true
same_resource _ _ = false

-- How often a resource was opened, less how often it was closed.
unfoldable pub opened_times : Resource → List Event → ℕ
unfolding same_resource
opened_times r [] = 0
opened_times r (Event.opened q ∷ events) =
    (if same_resource r q then 1 else 0) + opened_times r events
opened_times r (Event.closed q ∷ events) = opened_times r events

unfoldable pub closed_times : Resource → List Event → ℕ
unfolding same_resource
closed_times r [] = 0
closed_times r (Event.opened q ∷ events) = closed_times r events
closed_times r (Event.closed q ∷ events) =
    (if same_resource r q then 1 else 0) + closed_times r events

-- All that is opened is closed, as often as it is opened.
abbrev Balanced : List Event → Type 0
Balanced events = (r : Resource) → opened_times r events ≡ closed_times r events

-- How a worker ends: balanced as soon as its start has failed, or once its registry is closed.
abbrev pub EndsBalanced : World → Started → Type 0
EndsBalanced w (events, err e) = Balanced events
EndsBalanced w (events, ok reg) = Balanced (events ++ (close_registry w reg).0)

balanced :
    (events : List Event)
    → opened_times database events ≡ closed_times database events
    → opened_times cache events ≡ closed_times cache events
    → opened_times queue_client events ≡ closed_times queue_client events
    → opened_times inspector events ≡ closed_times inspector events
    → Balanced events
balanced events d c q i database = d
balanced events d c q i cache = c
balanced events d c q i queue_client = q
balanced events d c q i inspector = i

worker_probed-EndsBalanced :
    (w : World) (db : Bool) (o : Option InitError) → EndsBalanced w (worker_probed db o)
unfolding run_cleanups close_registry opened_times closed_times same_resource
worker_probed-EndsBalanced w true (some e) =
    balanced (worker_probed true (some e)).0 refl refl refl refl
worker_probed-EndsBalanced w false (some e) =
    balanced (worker_probed false (some e)).0 refl refl refl refl
worker_probed-EndsBalanced w true none =
    balanced ((worker_probed true none).0 ++ (closing (queue_client ∷ cache ∷ database ∷ []))) refl
      refl refl refl
worker_probed-EndsBalanced w false none =
    balanced ((worker_probed false none).0 ++ (closing (queue_client ∷ cache ∷ []))) refl refl refl
      refl

if-EndsBalanced :
    (w : World) (b : Bool) (s t : Started)
    → EndsBalanced w s
    → EndsBalanced w t
    → EndsBalanced w (if b then s else t)
if-EndsBalanced w true s t h k = h
if-EndsBalanced w false s t h k = k

worker_database-EndsBalanced :
    (w : World) (r : Result PoolError (Option (PoolSettings × LogLevel)))
    → EndsBalanced w (worker_database w r)
unfolding run_cleanups opened_times closed_times same_resource
worker_database-EndsBalanced w (err e) = balanced (worker_database w (err e)).0 refl refl refl refl
worker_database-EndsBalanced w (ok none) =
    worker_probed-EndsBalanced w false (probe_dependencies w false true)
worker_database-EndsBalanced w (ok (some pool)) =
    worker_probed-EndsBalanced w true (probe_dependencies w true true)

-- A worker process leaks nothing: InitWorker, whichever of its steps fails, closes each resource as often
-- as it has opened it; and where it succeeds, Close does so, also if closing one of them fails.
pub init_worker-EndsBalanced : (w : World) (cfg : Config) → EndsBalanced w (init_worker w cfg)
unfolding init_worker opened_times closed_times
init_worker-EndsBalanced w cfg =
    if-EndsBalanced w (is_empty (trim cfg.redis.addr)) ([], err redis_address_required)
      (if not (new_cache_client cfg.redis.addr) then ([], err init_cache_failed) else started)
      (λ r. refl)
      (if-EndsBalanced w (not (new_cache_client cfg.redis.addr)) ([], err init_cache_failed) started
        (λ r. refl) (worker_database-EndsBalanced w (init_pool w.open_database cfg.postgres)))
  where
    started : Started
    started = worker_database w (init_pool w.open_database cfg.postgres)
