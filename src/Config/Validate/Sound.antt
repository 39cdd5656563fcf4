-- ===== src/Config/Validate/Sound.antt =====
-- What the checks let through: predicates on a configuration, written without them.
use go_skeleton.Base.{
  ◌≡◌, ◌≢◌, ◌≤◌, ◌↔◌, ◌⊎◌, inl, inr, refl, Bool, true, false, not, ◌&&◌, List, [], ◌∷◌, ◌++◌,
  length, arith, Bool-cases,
}
use mathlib.Core.List.{Memᴰ}
use go_skeleton.Base.Int.{ℤ, pos, ltb_ℤ, ◌<ℤ◌, ◌≤ℤ◌, max_int32}
use go_skeleton.Base.Text.{Bytes, codes, beq, beq_iff, is_empty, trim, to_lower}
use go_skeleton.Base.Text.Number.{one_of}
use go_skeleton.Base.Dict.{Dict}
use go_skeleton.Config.{Config, PostgresConfig, Environment, production, development, is_production}
use go_skeleton.Config.Validate.{
  Problem, add_if, gin_modes, themes, layouts, db_log_levels, validate_postgres,
  insecure_jwt_secrets, min_jwt_secret_bytes, is_insecure_jwt_secret, secret_problems,
  validate_production_secrets, worker_problems, validate, server_problems, docs_problems,
  auth_problems, production_problems, rate_limit,
}

append-nil_iff : (xs ys : List Problem) → (xs ++ ys ≡ []) ↔ (xs ≡ []) × (ys ≡ [])
append-nil_iff [] ys = (λ h. (refl, h), λ h. h.1)
append-nil_iff (x ∷ xs) ys = (λ h. cc, λ h. cc)

Memᴰ_of_or :
    (s t : Bytes) (ts : List Bytes) (b : Bool)
    → beq s t ≡ b
    → (b ≡ false → Memᴰ s ts)
    → Memᴰ s (t ∷ ts)
Memᴰ_of_or s t ts true e rest = Memᴰ.head ((beq_iff s t).0 e)
Memᴰ_of_or s t ts false e rest = Memᴰ.tail (rest refl)

pub one_of_iff : (s : Bytes) (ts : List Bytes) → (one_of s ts ≡ true) ↔ Memᴰ s ts
one_of_iff s [] = (λ h. cc, λ m. elim m [ ])
one_of_iff s (t ∷ ts) = (
  λ h. Memᴰ_of_or s t ts (beq s t) refl (λ e. (one_of_iff s ts).0 (ground arith)),
  λ m. elim m [
    | Memᴰ.head e ↦ ground (arith, (beq_iff s t).1 e)
    | Memᴰ.tail m' ↦ ground (arith, (one_of_iff s ts).1 m')
  ],
)

pub record IsPoolSound (pg : PostgresConfig) : Type 0 where
  pub some_conns : pos 0 <ℤ pg.max_conns
  pub few_conns : pg.max_conns ≤ℤ max_int32
  pub no_debt : pos 0 ≤ℤ pg.min_conns
  pub ordered : pg.min_conns ≤ℤ pg.max_conns
  pub level : Memᴰ (to_lower (trim pg.log_level)) db_log_levels

validate_postgres_iff :
    (pg : PostgresConfig)
    → (validate_postgres pg ≡ []) ↔ (is_empty (trim pg.dsn) ≡ false → IsPoolSound pg)
unfolding validate_postgres
validate_postgres_iff pg =
    let listed = one_of_iff (to_lower (trim pg.log_level)) db_log_levels in
    (
      λ h set. record {
        some_conns = ground arith;
        few_conns = ground arith;
        no_debt = ground arith;
        ordered = ground arith;
        level = listed.0 (ground arith);
      },
      λ h. elim (Bool-cases (is_empty (trim pg.dsn))) [
        | inl unset ↦ rw unset refl
        | inr set ↦ let r = h set in ground (arith, listed.1 r.level)
      ],
    )

-- A secret that is not blank, together with what the tokens need.
pub record IsAuthSound (cfg : Config) : Type 0 where
  pub issuer : is_empty (trim cfg.auth.jwt_issuer) ≡ false
  pub lifetime : pos 0 <ℤ cfg.auth.jwt_ttl

pub record IsProductionSafe (cfg : Config) : Type 0 where
  pub long_secret : min_jwt_secret_bytes ≤ length (trim cfg.auth.jwt_secret)
  pub own_secret : ¬ Memᴰ (to_lower (trim cfg.auth.jwt_secret)) insecure_jwt_secrets
  pub no_dev_token : cfg.auth.dev_token_endpoint_enabled ≡ false
  pub release : (trim cfg.server.gin_mode ≡ []) ⊎ (trim cfg.server.gin_mode ≡ codes "release")
  pub json : (trim cfg.log.format ≡ []) ⊎ (trim cfg.log.format ≡ codes "json")

pub record IsSound (cfg : Config) : Type 0 where
  pub timeout : pos 0 <ℤ cfg.server.request_timeout
  pub mode : Memᴰ cfg.server.gin_mode gin_modes
  pub drain : pos 0 ≤ℤ cfg.server.graceful_drain
  pub pool : is_empty (trim cfg.postgres.dsn) ≡ false → IsPoolSound cfg.postgres
  pub workers : cfg.worker.queues ≢ [] → pos 0 <ℤ cfg.worker.concurrency
  pub rate : pos 0 ≤ℤ cfg.rate_limit.requests_per_minute
  pub theme : Memᴰ cfg.docs.theme themes
  pub layout : Memᴰ cfg.docs.layout layouts
  pub tokens : is_empty (trim cfg.auth.jwt_secret) ≡ false → IsAuthSound cfg
  pub guarded : cfg.env ≡ production → IsProductionSafe cfg

secret_problems_iff :
    (s : Bytes)
    → (secret_problems s ≡ [])
      ↔ (min_jwt_secret_bytes ≤ length s) × (¬ Memᴰ (to_lower s) insecure_jwt_secrets)
unfolding secret_problems
secret_problems_iff [] = (λ h. cc, λ h. absurd (omega (arith, h.0)))
secret_problems_iff (c ∷ s) =
    let listed = one_of_iff (to_lower (c ∷ s)) insecure_jwt_secrets in
    (
      λ h. (ground arith, λ m. ground (arith, listed.1 m)),
      λ h. elim (Bool-cases (is_insecure_jwt_secret (c ∷ s))) [
        | inl bad ↦ absurd (h.1 (listed.0 bad))
        | inr good ↦ rw good (ground arith)
      ],
    )

either_iff : (s t : Bytes) → ((not (is_empty s) && not (beq s t)) ≡ false) ↔ (s ≡ []) ⊎ (s ≡ t)
either_iff [] t = ground arith
either_iff (c ∷ s) t = ground (arith, beq_iff (c ∷ s) t)

add_if-nil_iff : (b : Bool) (problem : Problem) → (add_if b problem ≡ []) ↔ (b ≡ false)
add_if-nil_iff true problem = (λ h. cc, λ h. cc)
add_if-nil_iff false problem = (λ h. refl, λ h. refl)

validate_production_secrets_iff :
    (cfg : Config) → (validate_production_secrets cfg ≡ []) ↔ IsProductionSafe cfg
unfolding validate_production_secrets
validate_production_secrets_iff cfg =
    let secret = secret_problems_iff (trim cfg.auth.jwt_secret) in
    let mode = either_iff (trim cfg.server.gin_mode) (codes "release") in
    let format = either_iff (trim cfg.log.format) (codes "json") in
    (
      λ h.
          let (s, rest) = (append-nil_iff (secret_problems (trim cfg.auth.jwt_secret)) _).0 h in
          record {
            long_secret = (secret.0 s).0;
            own_secret = (secret.0 s).1;
            no_dev_token = ground arith;
            release = mode.0 (ground arith);
            json = format.0 (ground arith);
          },
      λ h. (append-nil_iff (secret_problems (trim cfg.auth.jwt_secret)) _).1 (
        secret.1 (h.long_secret, h.own_secret),
        rw (h.no_dev_token, mode.1 h.release, format.1 h.json) refl,
      ),
    )

module _ (cfg : Config) where
  server_problems_iff :
      (server_problems cfg.server ≡ [])
      ↔ (pos 0 <ℤ cfg.server.request_timeout)
        × Memᴰ cfg.server.gin_mode gin_modes
        × (pos 0 ≤ℤ cfg.server.graceful_drain)
  server_problems_iff =
      let mode = one_of_iff cfg.server.gin_mode gin_modes in
      (
        λ h. (ground arith, mode.0 (ground arith), ground arith),
        λ (p, m, d). ground (arith, mode.1 m),
      )

  worker_problems_iff :
      (queues : Dict ℤ) (concurrency : ℤ)
      → (worker_problems queues concurrency ≡ []) ↔ (queues ≢ [] → pos 0 <ℤ concurrency)
  worker_problems_iff [] concurrency = (λ _ n. absurd (n refl), λ _. refl)
  worker_problems_iff (q ∷ queues) concurrency =
      (λ h n. ground arith, λ h. let some = h (λ e. cc) in ground arith)

  docs_problems_iff :
      (docs_problems cfg.docs ≡ []) ↔ Memᴰ cfg.docs.theme themes × Memᴰ cfg.docs.layout layouts
  docs_problems_iff =
      let theme = one_of_iff cfg.docs.theme themes in
      let layout = one_of_iff cfg.docs.layout layouts in
      (
        λ h. (theme.0 (ground arith), layout.0 (ground arith)),
        λ (t, l). ground (arith, theme.1 t, layout.1 l),
      )

  auth_problems_iff :
      (auth_problems cfg.auth ≡ [])
      ↔ (is_empty (trim cfg.auth.jwt_secret) ≡ false → IsAuthSound cfg)
  auth_problems_iff = (
    λ h set. record { issuer = ground arith; lifetime = ground arith },
    λ h. elim (Bool-cases (is_empty (trim cfg.auth.jwt_secret))) [
      | inl unset ↦ rw unset refl
      | inr set ↦ let r = h set in ground arith
    ],
  )

  production_problems_iff :
      (production_problems cfg ≡ []) ↔ (cfg.env ≡ production → IsProductionSafe cfg)
  unfolding is_production
  production_problems_iff = of_env cfg.env refl
    where
      of_env :
          (e : Environment)
          → cfg.env ≡ e
          → (production_problems cfg ≡ []) ↔ (cfg.env ≡ production → IsProductionSafe cfg)
      of_env production e = simp e (
        (λ h _. (validate_production_secrets_iff cfg).0 h),
        λ h. (validate_production_secrets_iff cfg).1 (h refl),
      )
      of_env development e = simp e ((λ h d. cc), λ h. refl)

-- Load lets a configuration through exactly when it is sound: with a time limit for requests, known
-- modes and layouts, a pool in bounds where there is a database, workers where there are queues, and,
-- where tokens are signed, an issuer and a lifetime; in production also with a long secret that is no
-- placeholder, without the endpoint that signs for anyone, in release mode and with logs in JSON.
pub validate_iff : (cfg : Config) → (validate cfg ≡ []) ↔ IsSound cfg
unfolding validate
validate_iff cfg = (
  λ h.
      let (server, h1) = (append-nil_iff (server_problems cfg.server) _).0 h in
      let (pool, h2) = (append-nil_iff (validate_postgres cfg.postgres) _).0 h1 in
      let (workers, h3) =
        (append-nil_iff (worker_problems cfg.worker.queues cfg.worker.concurrency) _).0 h2 in
      let (rate, h4) =
        (append-nil_iff (add_if (ltb_ℤ cfg.rate_limit.requests_per_minute (pos 0)) rate_limit) _).0
          h3 in
      let (docs, h5) = (append-nil_iff (docs_problems cfg.docs) _).0 h4 in
      let (auth, guard) = (append-nil_iff (auth_problems cfg.auth) _).0 h5 in
      let (timeout, mode, drain) = (server_problems_iff cfg).0 server in
      let (theme, layout) = (docs_problems_iff cfg).0 docs in
      record {
        timeout = timeout;
        mode = mode;
        drain = drain;
        pool = (validate_postgres_iff cfg.postgres).0 pool;
        workers = (worker_problems_iff cfg cfg.worker.queues cfg.worker.concurrency).0 workers;
        rate = ground arith;
        theme = theme;
        layout = layout;
        tokens = (auth_problems_iff cfg).0 auth;
        guarded = (production_problems_iff cfg).0 guard;
      },
  λ h.
      simp
        (
          (server_problems_iff cfg).1 (h.timeout, h.mode, h.drain),
          (validate_postgres_iff cfg.postgres).1 h.pool,
          (worker_problems_iff cfg cfg.worker.queues cfg.worker.concurrency).1 h.workers,
          (docs_problems_iff cfg).1 (h.theme, h.layout),
          (auth_problems_iff cfg).1 h.tokens,
          (production_problems_iff cfg).1 h.guarded,
        )
        (ground (arith, h.rate)),
)
