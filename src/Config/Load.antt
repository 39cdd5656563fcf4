-- ===== src/Config/Load.antt =====
-- Load of config/config.go: every variable is read, also after one that is faulty, and the faults
-- are given together; only a configuration without faults is validated. The configuration is given in
-- each case. `parse_duration` is time.ParseDuration.
use go_skeleton.Base.{
  Bool-cases, inl, inr, ◌⊎◌, ℕ, ◌*◌, ◌^◌, String, ◌≡◌, ◌≢◌, ◌↔◌, refl, sym, ap, ◌∙◌, Bool, true,
  false, Option, none, some, List, [], ◌∷◌, arith,
}
use go_skeleton.Base.Int.{ℤ, pos, second, ◌<ℤ◌}
use go_skeleton.Base.Text.{Bytes, codes, is_empty, trim, to_lower, beq}
use go_skeleton.Base.Text.Trim.{trim_idem}
use go_skeleton.Base.Dict.{Dict, lookup}
use go_skeleton.Config.{Config, Environment, development}
use go_skeleton.Config.Env.{
  Variables, EnvError, not_environment, Read, getenv, get_env_or_default, optional_env, parse_csv,
  int_env, bool_env, duration_env, environment_env, queue_weights_env, environment_of, parsed_or,
}
use go_skeleton.Config.Env.Queues.{IsQueues, queue_weights_env-IsQueues}
use go_skeleton.Config.Validate.{Problem, validate}
use go_skeleton.Config.Validate.Sound.{IsSound, validate_iff}

abbrev pub default_queues : Dict ℤ
default_queues = (codes "critical", pos 6) ∷ (codes "default", pos 3) ∷ (codes "low", pos 1) ∷ []

pub default_queues-IsQueues : IsQueues default_queues
unfolding lookup beq
default_queues-IsQueues = record {
  each = ((refl, omega arith), ((refl, omega arith), ((refl, omega arith), tt)));
  map = (refl, (refl, (refl, tt)));
}

-- `collect`, of each error in turn.
abbrev pub collected : List (Option EnvError) → List EnvError
collected [] = []
collected (none ∷ errs) = collected errs
collected (some e ∷ errs) = e ∷ collected errs

pub data LoadError : Type 0 where
  invalid_variables : List EnvError → LoadError
  validation_failed : List Problem → LoadError

module _ (parse_duration : Bytes → Option ℤ) (env : Variables) where
  abbrev duration : String → ℕ → Read ℤ
  duration key fallback = duration_env parse_duration env key (pos fallback)

  abbrev int : String → ℕ → Read ℤ
  int key fallback = int_env env key (pos fallback)

  abbrev bool : String → Bool → Read Bool
  bool key fallback = bool_env env key fallback

  -- The errors of the variables, in the order in which they are read.
  unfoldable pub read_errors : List EnvError
  read_errors = collected (
      (environment_env env "APP_ENV" development).1
      ∷ (duration "REQUEST_TIMEOUT" (30 * second)).1
      ∷ (duration "STARTUP_PROBE_TIMEOUT" (5 * second)).1
      ∷ (duration "GRACEFUL_DRAIN" (10 * second)).1
      ∷ (bool "PPROF_ENABLED" false).1
      ∷ (duration "WATCHDOG_INTERVAL" (10 * second)).1
      ∷ (bool "SECURITY_HEADERS_ENABLED" true).1
      ∷ (int "BODY_MAX_BYTES" (2 ^ 20)).1
      ∷ (bool "METRICS_ENABLED" true).1
      ∷ (bool "DOCS_HIDE_TRY_IT" false).1
      ∷ (bool "DOCS_HIDE_SCHEMAS" false).1
      ∷ (int "DB_MAX_CONNS" 30).1
      ∷ (int "DB_MIN_CONNS" 0).1
      ∷ (duration "DB_CONN_MAX_LIFETIME" (30 * 60 * second)).1
      ∷ (duration "DB_CONN_MAX_IDLE_TIME" (5 * 60 * second)).1
      ∷ (int "REDIS_CACHE_DB" 0).1
      ∷ (int "REDIS_QUEUE_DB" 6).1
      ∷ (int "REDIS_POOL_SIZE" 0).1
      ∷ (int "REDIS_MIN_IDLE_CONNS" 0).1
      ∷ (duration "JWT_TTL" (24 * 60 * 60 * second)).1
      ∷ (bool "AUTH_DEV_TOKEN_ENABLED" false).1
      ∷ (bool "AUDIT_LOG_ENABLED" true).1
      ∷ (int "RATE_LIMIT_PER_MINUTE" 0).1
      ∷ (bool "CORS_ALLOW_CREDENTIALS" false).1
      ∷ (int "WORKER_CONCURRENCY" 10).1
      ∷ (queue_weights_env env "WORKER_QUEUES" default_queues).1
      ∷ (duration "WORKER_RETRY_BASE_DELAY" (5 * second)).1
      ∷ (duration "WORKER_RETRY_MAX_DELAY" (60 * 60 * second)).1
      ∷ [])

  -- The configuration, with the default where a variable is faulty.
  unfoldable pub read_config : Config
  read_config = record {
    env = (environment_env env "APP_ENV" development).0;
    server = record {
      port = get_env_or_default env "SERVER_PORT" (codes ":3000");
      gin_mode = get_env_or_default env "GIN_MODE" (codes "release");
      trusted_proxies = parse_csv (getenv env "TRUSTED_PROXIES");
      request_timeout = (duration "REQUEST_TIMEOUT" (30 * second)).0;
      startup_probe_timeout = (duration "STARTUP_PROBE_TIMEOUT" (5 * second)).0;
      graceful_drain = (duration "GRACEFUL_DRAIN" (10 * second)).0;
      pprof_enabled = (bool "PPROF_ENABLED" false).0;
      pprof_addr = get_env_or_default env "PPROF_ADDR" (codes "127.0.0.1:6060");
      watchdog_interval = (duration "WATCHDOG_INTERVAL" (10 * second)).0;
      security_headers_enabled = (bool "SECURITY_HEADERS_ENABLED" true).0;
      body_max_bytes = (int "BODY_MAX_BYTES" (2 ^ 20)).0;
      metrics_enabled = (bool "METRICS_ENABLED" true).0;
      metrics_addr = trim (getenv env "METRICS_ADDR");
    };
    docs = record {
      title = get_env_or_default env "DOCS_TITLE" (codes "API Docs");
      theme = get_env_or_default env "DOCS_THEME" (codes "system");
      hide_try_it = (bool "DOCS_HIDE_TRY_IT" false).0;
      hide_schemas = (bool "DOCS_HIDE_SCHEMAS" false).0;
      layout = get_env_or_default env "DOCS_LAYOUT" (codes "sidebar");
      logo = getenv env "DOCS_LOGO";
    };
    postgres = record {
      dsn = getenv env "POSTGRES";
      log_level = get_env_or_default env "DB_LOG_LEVEL" (codes "warn");
      max_conns = (int "DB_MAX_CONNS" 30).0;
      min_conns = (int "DB_MIN_CONNS" 0).0;
      conn_max_lifetime = (duration "DB_CONN_MAX_LIFETIME" (30 * 60 * second)).0;
      conn_max_idle_time = (duration "DB_CONN_MAX_IDLE_TIME" (5 * 60 * second)).0;
    };
    redis = record {
      addr = getenv env "REDIS_ADDR";
      password = getenv env "REDIS_PASSWORD";
      cache_db = (int "REDIS_CACHE_DB" 0).0;
      queue_db = (int "REDIS_QUEUE_DB" 6).0;
      pool_size = (int "REDIS_POOL_SIZE" 0).0;
      min_idle_conns = (int "REDIS_MIN_IDLE_CONNS" 0).0;
    };
    auth = record {
      jwt_secret = getenv env "JWT_SECRET";
      jwt_issuer = get_env_or_default env "JWT_ISSUER" (codes "go-skeleton");
      jwt_ttl = (duration "JWT_TTL" (24 * 60 * 60 * second)).0;
      dev_token_endpoint_enabled = (bool "AUTH_DEV_TOKEN_ENABLED" false).0;
    };
    cors = record {
      allow_origins = parse_csv (getenv env "CORS_ALLOW_ORIGINS");
      allow_credentials = (bool "CORS_ALLOW_CREDENTIALS" false).0;
    };
    log = record {
      level = get_env_or_default env "LOG_LEVEL" (codes "info");
      format = get_env_or_default env "LOG_FORMAT" (codes "json");
      stacktrace_level = get_env_or_default env "LOG_STACKTRACE_LEVEL" (codes "error");
      audit_enabled = (bool "AUDIT_LOG_ENABLED" true).0;
      audit_excludes = parse_csv (getenv env "AUDIT_LOG_EXCLUDE_PATHS");
    };
    rate_limit = record { requests_per_minute = (int "RATE_LIMIT_PER_MINUTE" 0).0 };
    worker = record {
      concurrency = (int "WORKER_CONCURRENCY" 10).0;
      queues = (queue_weights_env env "WORKER_QUEUES" default_queues).0;
      retry_base_delay = (duration "WORKER_RETRY_BASE_DELAY" (5 * second)).0;
      retry_max_delay = (duration "WORKER_RETRY_MAX_DELAY" (60 * 60 * second)).0;
      metrics_addr = optional_env env "WORKER_METRICS_ADDR" (codes ":9091");
    };
  }

  -- The error that Load gives for these faults and problems.
  abbrev pub load_error : List EnvError → List Problem → Option LoadError
  load_error (e ∷ errs) problems = some (invalid_variables (e ∷ errs))
  load_error [] (problem ∷ problems) = some (validation_failed (problem ∷ problems))
  load_error [] [] = none

  unfoldable pub load : Config × Option LoadError
  unfolding read_errors read_config
  load = (read_config, load_error read_errors (validate read_config))

  load_error-none_iff :
      (errs : List EnvError) (problems : List Problem)
      → (load_error errs problems ≡ none) ↔ (errs ≡ []) × (problems ≡ [])
  load_error-none_iff [] [] = (λ h. (refl, refl), λ h. refl)
  load_error-none_iff [] (p ∷ ps) = (λ h. cc, λ h. cc)
  load_error-none_iff (e ∷ errs) ps = (λ h. cc, λ h. cc)

  abbrev app_env_error : EnvError
  app_env_error = record { key = "APP_ENV"; fault = not_environment }

  environment_read :
      (o : Option Environment) (e : EnvError)
      → (parsed_or e development o).1 ≡ none
      → o ≡ some (parsed_or e development o).0
  environment_read none e h = cc
  environment_read (some p) e h = refl

  first_read :
      (o : Option EnvError) (errs : List (Option EnvError)) → collected (o ∷ errs) ≡ [] → o ≡ none
  first_read none errs h = refl
  first_read (some e) errs h = cc

  -- APP_ENV, if it is not blank, names the environment of a configuration that was read without faults.
  env_of_read :
      read_errors ≡ []
      → is_empty (trim (getenv env "APP_ENV")) ≡ false
      → environment_of (to_lower (trim (getenv env "APP_ENV"))) ≡ some read_config.env
  unfolding read_errors read_config environment_env
  env_of_read h set =
      let e = app_env_error in
      let raw = trim (getenv env "APP_ENV") in
      let read : environment_env env "APP_ENV" development
          ≡ parsed_or e development (environment_of (to_lower raw)) =
        rw set refl in
      environment_read (environment_of (to_lower raw)) e (
        ap (λ (r : Read Environment). r.1) (sym read)
        ∙ first_read (environment_env env "APP_ENV" development).1 _ h)
      ∙ ap (λ (r : Read Environment). some r.0) (sym read)

  -- The environment that the variable stands for: development where it is blank, else the one it names.
  abbrev pub IsNamed : Bytes → Environment → Type 0
  IsNamed raw e =
      ((is_empty raw ≡ true) × (e ≡ development)) ⊎ (environment_of (to_lower raw) ≡ some e)

  env-IsNamed : read_errors ≡ [] → IsNamed (trim (getenv env "APP_ENV")) read_config.env
  unfolding read_config environment_env
  env-IsNamed h = elim (Bool-cases (is_empty (trim (getenv env "APP_ENV")))) [
    | inl blank ↦ inl (blank, rw blank refl)
    | inr set ↦ inr (env_of_read h set)
  ]

  -- Load gives no error exactly when no variable is faulty and the configuration is sound.
  pub load_iff : (load.1 ≡ none) ↔ (read_errors ≡ []) × IsSound load.0
  unfolding load
  load_iff = (
    λ h.
        let (read, valid) = (load_error-none_iff read_errors (validate read_config)).0 h in
        (read, (validate_iff read_config).0 valid),
    λ h.
        (load_error-none_iff read_errors (validate read_config)).1
          (h.0, (validate_iff read_config).1 h.1),
  )

  -- A variable that is set to blanks is replaced by its default, as one that is not set.
  issuer_given : is_empty (trim read_config.auth.jwt_issuer) ≡ false
  unfolding read_config get_env_or_default
  issuer_given = elim (Bool-cases (is_empty (trim (getenv env "JWT_ISSUER")))) [
    | inl blank ↦ rw blank (unfold trim in refl)
    | inr given ↦ rw given (rw (trim_idem (getenv env "JWT_ISSUER")) given)
  ]

  -- After a Load without an error the process runs in the environment that APP_ENV names, in any case
  -- and with white space round it, or in development if it is blank, so that no misspelt name passes for
  -- development; its tokens have an issuer, also where JWT_ISSUER is set to blanks; and its worker has at
  -- least one queue, each with a name of its own and a positive weight, and room for a task.
  pub load_ok :
      load.1 ≡ none
      → IsNamed (trim (getenv env "APP_ENV")) load.0.env
        × (is_empty (trim load.0.auth.jwt_issuer) ≡ false)
        × IsQueues load.0.worker.queues
        × (load.0.worker.queues ≢ [])
        × (pos 0 <ℤ load.0.worker.concurrency)
  unfolding load
  load_ok h =
      let (read, sound) = load_iff.0 h in
      let (queues, some_queue) =
        queue_weights_env-IsQueues env "WORKER_QUEUES" default_queues default_queues-IsQueues
          (λ e. cc) in
      (env-IsNamed read, issuer_given, queues, some_queue, sound.workers some_queue)
