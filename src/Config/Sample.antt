-- ===== src/Config/Sample.antt =====
-- Variables of a production process, and of a worker with two queues.
use go_skeleton.Base.{◌*◌, ◌≡◌, refl, Option, none, some, [], str_eq, if◌then◌else◌}
use go_skeleton.Base.Int.{ℤ, pos, second}
use go_skeleton.Base.Text.{Bytes, codes, trim, to_lower, beq, split}
use go_skeleton.Base.Text.Number.{parse_int, parse_bool}
use go_skeleton.Config.{production, is_production}
use go_skeleton.Config.Env.{
  Variables, parse_csv, keep_parts, queue_weights_env, get_env_or_default, optional_env, parsed_env,
  int_env, bool_env, duration_env, environment_env,
}
use go_skeleton.Config.Validate.{
  validate, validate_postgres, secret_problems, is_insecure_jwt_secret, validate_production_secrets,
}
use go_skeleton.Config.Warnings.{Net, production_warnings}
use go_skeleton.Config.Load.{load, read_errors, read_config}

-- It knows one duration.
abbrev pub minute_only : Bytes → Option ℤ
minute_only s = if beq s (codes "1m") then some (pos (60 * second)) else none

abbrev pub in_production : Variables
in_production key =
    if str_eq key "APP_ENV"
    then some (codes " Production ")
    else if str_eq key "JWT_SECRET"
    then some (codes "0123456789abcdef0123456789abcdef")
    else if str_eq key "JWT_TTL"
    then some (codes "1m")
    else none

abbrev pub worker_variables : Variables
worker_variables key =
    if str_eq key "WORKER_QUEUES" then some (codes "low:1, high:9,,low : 4") else none

pub loaded : (load minute_only in_production).1 ≡ none
unfolding load read_errors read_config validate validate_postgres secret_problems
    is_insecure_jwt_secret validate_production_secrets is_production queue_weights_env
    get_env_or_default optional_env parsed_env int_env bool_env duration_env environment_env
    parse_csv keep_parts split trim to_lower beq parse_int parse_bool
loaded = refl

pub is_in_production : (load minute_only in_production).0.env ≡ production
unfolding load read_config environment_env trim to_lower beq
is_in_production = refl

-- As in_production, with a limit, a proxy, and a listener for the metrics.
abbrev pub quiet_production : Variables
quiet_production key =
    if str_eq key "RATE_LIMIT_PER_MINUTE"
    then some (codes "60")
    else if str_eq key "TRUSTED_PROXIES"
    then some (codes "10.0.0.0/8")
    else if str_eq key "METRICS_ADDR"
    then some (codes "127.0.0.1:9090")
    else in_production key

abbrev pub no_net : Net
no_net = record { split_host = λ addr. none; parse_ip = λ host. none }

pub loaded_quietly : (load minute_only quiet_production).1 ≡ none
unfolding load read_errors read_config validate validate_postgres secret_problems
    is_insecure_jwt_secret validate_production_secrets is_production queue_weights_env
    get_env_or_default optional_env parsed_env int_env bool_env duration_env environment_env
    parse_csv keep_parts split trim to_lower beq parse_int parse_bool
loaded_quietly = refl

pub is_quiet_in_production : (load minute_only quiet_production).0.env ≡ production
unfolding load read_config environment_env trim to_lower beq
is_quiet_in_production = refl

pub is_quiet : production_warnings no_net (load minute_only quiet_production).0 ≡ []
unfolding production_warnings load read_config is_production get_env_or_default parsed_env int_env
    bool_env duration_env environment_env parse_csv keep_parts split trim to_lower beq parse_int
    parse_bool
is_quiet = refl
