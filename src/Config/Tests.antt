-- ===== src/Config/Tests.antt =====
-- The properties of the configuration at concrete variables.
use go_skeleton.Base.{◌≡◌, ◌≢◌, ◌↔◌, refl, false, none, [], ◌∷◌}
use go_skeleton.Base.Int.{pos, ◌<ℤ◌}
use go_skeleton.Base.Text.{codes, trim, is_empty, split, beq, cut}
use go_skeleton.Base.Text.Number.{parse_int}
use go_skeleton.Base.Dict.{insert}
use go_skeleton.Config.Env.{
  getenv, parse_csv, keep_parts, queue_weights_env, queue_pairs, queue_pair,
}
use go_skeleton.Config.Env.Lists.{IsEntry}
use go_skeleton.Config.Env.Queues.{IsQueues}
use go_skeleton.Config.Validate.{validate}
use go_skeleton.Config.Validate.Sound.{IsSound, validate_iff}
use go_skeleton.Config.Load.{load, IsNamed, load_ok, default_queues}
use go_skeleton.Config.Sample.{minute_only, in_production, loaded, worker_variables}

origin : IsEntry (codes "a b")
unfolding trim
origin = record {
  some_byte = refl;
  trimmed = record { first = refl; last = refl };
  whole = (refl, (refl, (refl, tt)));
}

-- Blank entries are dropped.
csv : parse_csv (codes " a,, b ,") ≡ codes "a" ∷ codes "b" ∷ []
unfolding parse_csv keep_parts split trim
csv = refl

-- The later weight of a name counts.
two_weights :
    queue_weights_env worker_variables "WORKER_QUEUES" default_queues
    ≡ ((codes "low", pos 4) ∷ (codes "high", pos 9) ∷ [], none)
unfolding queue_weights_env queue_pairs queue_pair split trim cut parse_int insert beq
two_weights = refl

validate_iff_example :
    (validate (load minute_only in_production).0 ≡ []) ↔ IsSound (load minute_only in_production).0
validate_iff_example = validate_iff (load minute_only in_production).0

load_ok_example :
    IsNamed minute_only in_production
      (trim (getenv in_production "APP_ENV"))
      (load minute_only in_production).0.env
    × (is_empty (trim (load minute_only in_production).0.auth.jwt_issuer) ≡ false)
    × IsQueues (load minute_only in_production).0.worker.queues
    × ((load minute_only in_production).0.worker.queues ≢ [])
    × (pos 0 <ℤ (load minute_only in_production).0.worker.concurrency)
load_ok_example = load_ok minute_only in_production loaded
