-- ===== src/Handler/Tests.antt =====
-- The token flow and the readiness probe at one configuration.
use go_skeleton.Base.{
  ◌+◌, ◌*◌, ◌≡◌, refl, arith, true, false, none, some, [], ok, err, str_eq, if◌then◌else◌,
}
use go_skeleton.Base.Int.{second}
use go_skeleton.Base.Text.{codes, trim, to_lower, has_prefix}
use go_skeleton.Wire.{Body, token, me}
use go_skeleton.Gin.{View, Request, final}
use go_skeleton.Gin.Recording.{recording}
use go_skeleton.Auth.{parse_token, normalize_bearer_token, token_required}
use go_skeleton.Auth.Sample.{sample, manager, issued_to_ada, claims_of_ada, behind_bearer}
use go_skeleton.Response.Sample.{get, context_at}
use go_skeleton.Middleware.BearerAuth.{bearer_auth}
use go_skeleton.Handler.Auth.{AuthHandler, create_token, me_handler}
use go_skeleton.Handler.Auth.Exchange.{Succeeds, me_handler-create_token}
use go_skeleton.Handler.Health.{HealthHandler}

abbrev handler : AuthHandler
handler = record { manager = some manager; dev_token_available = true }

abbrev with_token : Request
with_token = record get {
  headers = λ name. if str_eq name "Authorization" then codes "BEARER tok" else [];
}

abbrev me_context : View Body
me_context = record (context_at (64 * second)) { request = with_token }

me_handler-create_token_example :
    Succeeds
      (token (record { access_token = codes "tok"; token_type = "Bearer" }))
      (context_at (5 * second + 7))
      (final (
        create_token sample
          (recording Body)
          handler
          (ok (codes " ada "))
          (context_at (5 * second + 7))))
    × Succeeds (me (record { subject = trim (codes " ada ") })) me_context (
        final (
          bearer_auth sample
            (recording Body)
            (some manager)
            (me_handler (recording Body))
            me_context))
me_handler-create_token_example =
    me_handler-create_token sample (recording Body) handler manager (codes " ada ") (codes "tok")
      (context_at (5 * second + 7)) me_context refl refl issued_to_ada claims_of_ada behind_bearer
      (omega arith) (omega arith)

no_token : parse_token sample manager 7 [] ≡ err token_required
unfolding parse_token normalize_bearer_token trim to_lower has_prefix
no_token = refl

abbrev cache_down : HealthHandler
cache_down = record {
  db = some (ok tt);
  cache = some (err "timeout");
  queue = none;
  draining = some false;
}
