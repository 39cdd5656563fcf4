-- ===== src/Config/Validate.antt =====
-- config/validate.go: what a configuration has to satisfy before a process starts. Each `add` of a
-- message is a problem of its own; the messages' texts are left out.
pub mod Sound
use go_skeleton.Base.{
  ℕ, ◌-◌, ◌^◌, String, Bool, true, false, not, ◌&&◌, ◌||◌, List, [], ◌∷◌, ◌++◌, if◌then◌else◌, ltb,
  length,
}
use go_skeleton.Base.Int.{ℤ, pos, leb_ℤ, ltb_ℤ, max_int32}
use go_skeleton.Base.Text.{Bytes, codes, beq, is_empty, trim, to_lower}
use go_skeleton.Base.Text.Number.{one_of}
use go_skeleton.Base.Dict.{Dict}
use go_skeleton.Config.{Config, ServerConfig, DocsConfig, PostgresConfig, AuthConfig, is_production}

pub data Problem : Type 0 where
  request_timeout gin_mode graceful_drain worker_concurrency rate_limit docs_theme docs_layout :
      Problem
  jwt_issuer jwt_ttl db_max_conns db_min_conns db_log_level : Problem
  secret_missing secret_placeholder secret_short dev_token production_gin_mode log_format : Problem

abbrev pub add_if : Bool → Problem → List Problem
add_if wrong problem = if wrong then problem ∷ [] else []

abbrev pub gin_modes : List Bytes
gin_modes = [] ∷ codes "debug" ∷ codes "release" ∷ codes "test" ∷ []

abbrev pub themes : List Bytes
themes = codes "light" ∷ codes "dark" ∷ codes "system" ∷ []

abbrev pub layouts : List Bytes
layouts = codes "sidebar" ∷ codes "stacked" ∷ []

abbrev pub db_log_levels : List Bytes
db_log_levels = codes "silent" ∷ codes "error" ∷ codes "warn" ∷ codes "info" ∷ []

unfoldable pub validate_postgres : PostgresConfig → List Problem
validate_postgres pg =
    if is_empty (trim pg.dsn)
    then []
    else add_if (leb_ℤ pg.max_conns (pos 0) || ltb_ℤ max_int32 pg.max_conns) db_max_conns
      ++ (add_if (ltb_ℤ pg.min_conns (pos 0) || ltb_ℤ pg.max_conns pg.min_conns) db_min_conns
          ++ add_if (not (one_of (to_lower (trim pg.log_level)) db_log_levels)) db_log_level)

abbrev pub insecure_jwt_secrets : List Bytes
insecure_jwt_secrets = codes "change-me-in-production" ∷ codes "change-me" ∷ codes "secret" ∷ []

abbrev pub min_jwt_secret_bytes : ℕ
min_jwt_secret_bytes = 32

unfoldable pub is_insecure_jwt_secret : Bytes → Bool
is_insecure_jwt_secret secret = one_of (to_lower secret) insecure_jwt_secrets

-- The switch on the secret.
unfoldable pub secret_problems : Bytes → List Problem
unfolding is_insecure_jwt_secret
secret_problems secret =
    if is_empty secret
    then secret_missing ∷ []
    else if is_insecure_jwt_secret secret
    then secret_placeholder ∷ []
    else if ltb (length secret) min_jwt_secret_bytes
    then secret_short ∷ []
    else []

unfoldable pub validate_production_secrets : Config → List Problem
unfolding secret_problems
validate_production_secrets cfg =
    let mode = trim cfg.server.gin_mode in
    let format = trim cfg.log.format in
    secret_problems (trim cfg.auth.jwt_secret)
    ++ (add_if cfg.auth.dev_token_endpoint_enabled dev_token
        ++ (add_if (not (is_empty mode) && not (beq mode (codes "release"))) production_gin_mode
            ++ add_if (not (is_empty format) && not (beq format (codes "json"))) log_format))

-- The problems of the worker's settings, looked at only where there are queues.
abbrev pub worker_problems : Dict ℤ → ℤ → List Problem
worker_problems [] concurrency = []
worker_problems (_ ∷ _) concurrency = add_if (leb_ℤ concurrency (pos 0)) worker_concurrency

abbrev pub server_problems : ServerConfig → List Problem
server_problems server =
    add_if (leb_ℤ server.request_timeout (pos 0)) request_timeout
    ++ (add_if (not (one_of server.gin_mode gin_modes)) gin_mode
        ++ add_if (ltb_ℤ server.graceful_drain (pos 0)) graceful_drain)

abbrev pub docs_problems : DocsConfig → List Problem
docs_problems docs =
    add_if (not (one_of docs.theme themes)) docs_theme
    ++ add_if (not (one_of docs.layout layouts)) docs_layout

abbrev pub auth_problems : AuthConfig → List Problem
auth_problems auth =
    let set = not (is_empty (trim auth.jwt_secret)) in
    add_if (set && is_empty (trim auth.jwt_issuer)) jwt_issuer
    ++ add_if (set && leb_ℤ auth.jwt_ttl (pos 0)) jwt_ttl

abbrev pub production_problems : Config → List Problem
production_problems cfg = if is_production cfg.env then validate_production_secrets cfg else []

-- The problems in the order in which they are added.
unfoldable pub validate : Config → List Problem
unfolding validate_postgres validate_production_secrets is_production
validate cfg =
    server_problems cfg.server
    ++ (validate_postgres cfg.postgres
        ++ (worker_problems cfg.worker.queues cfg.worker.concurrency
            ++ (add_if (ltb_ℤ cfg.rate_limit.requests_per_minute (pos 0)) rate_limit
                ++ (docs_problems cfg.docs
                    ++ (auth_problems cfg.auth ++ production_problems cfg)))))
