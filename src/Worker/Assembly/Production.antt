-- ===== src/Worker/Assembly/Production.antt =====
-- What InitWorker and NewWorker together guarantee of a worker process.
use go_skeleton.Base.{
  String, ◌≡◌, ◌≢◌, ◌↔◌, inl, inr, refl, ◌∙◌, Bool, true, false, not, Option, none, some, [], ◌∷◌,
  Result, ok, err, Bool-cases,
}
use go_skeleton.Base.Text.{Bytes, is_empty, trim}
use go_skeleton.Config.{Config, Environment, development, production, is_production}
use go_skeleton.Database.{PoolError, PoolSettings, LogLevel, init_pool, leveled, parse_log_level}
use go_skeleton.Bootstrap.{
  Registry, World, InitError, init_worker, worker_database, worker_probed, probe_dependencies,
  new_cache_client,
}
use go_skeleton.Worker.Assembly.{
  ExampleProcessor, service_processor, noop_processor, WorkerError, validate_worker_registry,
  build_worker_deps, register_handlers, required_processors, new_worker, missing_processors,
}

-- Whether Init makes a pool.
abbrev pool_made : Result PoolError (Option (PoolSettings × LogLevel)) → Bool
pool_made (err e) = false
pool_made (ok none) = false
pool_made (ok (some pool)) = true

probed_pool :
    (db : Bool) (o : Option InitError) (reg : Registry)
    → (worker_probed db o).1 ≡ ok reg
    → reg.pool ≡ db
probed_pool db (some e) reg h = cc
probed_pool db none reg h = cc

database_pool :
    (w : World) (r : Result PoolError (Option (PoolSettings × LogLevel))) (reg : Registry)
    → (worker_database w r).1 ≡ ok reg
    → (reg.pool ≡ pool_made r) × ((e : PoolError) → r ≢ err e)
database_pool w (err e) reg h = cc
database_pool w (ok none) reg h =
    (probed_pool false (probe_dependencies w false true) reg h, λ e. λ p. cc)
database_pool w (ok (some pool)) reg h =
    (probed_pool true (probe_dependencies w true true) reg h, λ e. λ p. cc)

-- A pool is made of a DSN that is not blank, unless that fails.
pool_made_of_dsn :
    (failure : Option String) (cfg : Config)
    → ((e : PoolError) → init_pool failure cfg.postgres ≢ err e)
    → pool_made (init_pool failure cfg.postgres) ≡ not (is_empty (trim cfg.postgres.dsn))
unfolding init_pool
pool_made_of_dsn failure cfg h = elim (Bool-cases (is_empty (trim cfg.postgres.dsn))) [
  | inl blank ↦ rw blank refl
  | inr given ↦
      let f = rw given at h in
      rw given
        (of_leveled (leveled cfg.postgres (parse_log_level cfg.postgres.log_level) failure) f)
]
  where
    of_leveled :
        (r : Result PoolError (PoolSettings × LogLevel))
        → ((e : PoolError) → (elim r [ err e ↦ err e | ok pool ↦ ok (some pool) ]) ≢ err e)
        → pool_made (elim r [ err e ↦ err e | ok pool ↦ ok (some pool) ]) ≡ true
    of_leveled (err e) h = absurd (h e refl)
    of_leveled (ok pool) h = refl

addr_given : (addr : Bytes) → is_empty (trim addr) ≡ false → is_empty addr ≡ false
unfolding trim
addr_given [] h = cc
addr_given (c ∷ s) h = refl

-- What a registry of InitWorker says of the configuration.
worker_registry :
    (w : World) (cfg : Config) (reg : Registry)
    → (init_worker w cfg).1 ≡ ok reg
    → (is_empty cfg.redis.addr ≡ false) × (reg.pool ≡ not (is_empty (trim cfg.postgres.dsn)))
unfolding init_worker new_cache_client
worker_registry w cfg reg h = elim (Bool-cases (is_empty (trim cfg.redis.addr))) [
  | inl blank ↦ let p = rw blank at h in cc
  | inr given ↦
      let p = rw given at h in
      let (same, opened) = database_pool w (init_pool w.open_database cfg.postgres) reg p in
      (addr_given cfg.redis.addr given, same ∙ pool_made_of_dsn w.open_database cfg opened)
]

-- NewWorker with a Redis, by the environment and the pool.
abbrev chosen : Environment → Bool → Result WorkerError ExampleProcessor
chosen env true = ok service_processor
chosen development false = ok noop_processor
chosen production false = err (missing_processors ("ExampleProcessor" ∷ []))

chosen_of :
    (env : Environment) (pool : Bool) (cfg : Config) (reg : Registry)
    → cfg.env ≡ env
    → reg.pool ≡ pool
    → is_empty cfg.redis.addr ≡ false
    → new_worker cfg reg ≡ chosen env pool
unfolding new_worker validate_worker_registry build_worker_deps register_handlers
    required_processors is_production
chosen_of development true cfg reg e p a = rw (e, p, a) refl
chosen_of development false cfg reg e p a = rw (e, p, a) refl
chosen_of production true cfg reg e p a = rw (e, p, a) refl
chosen_of production false cfg reg e p a = rw (e, p, a) refl

chosen_service :
    (env : Environment) (blank : Bool)
    → (chosen env (not blank) ≡ ok service_processor) ↔ (blank ≡ false)
chosen_service env false = (λ h. refl, λ h. refl)
chosen_service development true = (λ h. cc, λ h. cc)
chosen_service production true = (λ h. cc, λ h. cc)

chosen_noop :
    (env : Environment) (blank : Bool)
    → (chosen env (not blank) ≡ ok noop_processor) ↔ (blank ≡ true) × (env ≡ development)
chosen_noop env false = (λ h. cc, λ h. cc)
chosen_noop development true = (λ h. (refl, refl), λ h. refl)
chosen_noop production true = (λ h. cc, λ h. cc)

-- Once InitWorker has succeeded, NewWorker puts the service behind the example tasks exactly when a DSN
-- is set, and the processor that only acknowledges them exactly when none is and the process is not in
-- production: a worker in production starts with the service or not at all.
pub new_worker_of_init_worker :
    (w : World) (cfg : Config) (reg : Registry)
    → (init_worker w cfg).1 ≡ ok reg
    → ((new_worker cfg reg ≡ ok service_processor) ↔ (is_empty (trim cfg.postgres.dsn) ≡ false))
      × ((new_worker cfg reg ≡ ok noop_processor)
          ↔ (is_empty (trim cfg.postgres.dsn) ≡ true) × (cfg.env ≡ development))
new_worker_of_init_worker w cfg reg h =
    let (addr, pool) = worker_registry w cfg reg h in
    rw (chosen_of cfg.env (not (is_empty (trim cfg.postgres.dsn))) cfg reg refl pool addr) (
      chosen_service cfg.env (is_empty (trim cfg.postgres.dsn)),
      chosen_noop cfg.env (is_empty (trim cfg.postgres.dsn)),
    )
