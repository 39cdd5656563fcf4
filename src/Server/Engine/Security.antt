-- ===== src/Server/Engine/Security.antt =====
-- The security headers of internal/middleware/security_headers.go on every answer of the chain.
use go_skeleton.Base.{◌≡◌, refl, String, Bool, true, false, Option, none, some, if◌then◌else◌}
use go_skeleton.Base.Text.{Bytes, codes}
use go_skeleton.Errcode
use go_skeleton.Wire.{Body}
use go_skeleton.Response.{abort_error}
use go_skeleton.Gin.{Gin, Handler, Outcome, returned, panicked, final}
use go_skeleton.Gin.State.{with_state, stateless, carried}
use go_skeleton.Middleware.Headers.{security_headers, max_body_bytes}
use go_skeleton.Middleware.Timeout.{timeout}
use go_skeleton.Middleware.Recovery.{recovery}
use go_skeleton.Middleware.Cors.{cors}
use go_skeleton.Middleware.RateLimit.{RateLibrary, IpRateLimiter, limit_requests, allow_ip}
use go_skeleton.Server.Engine.{EngineConfig, Limited, guarded, below_metrics}
use go_skeleton.Server.Engine.Headers.{
  HasHeader, Keeps, IsForeign, Ends, if-Ends, abort_error-HasHeader, recovered-HasHeader,
  header-HasHeader, max_body_bytes-Keeps, timeout-Keeps, cors-Keeps,
}

stateless-Keeps :
    (lib : RateLibrary) (g : Gin Body) (name : String) (value : Bytes) (handler : Handler g.Context)
    → Keeps g name value handler
    → Keeps (with_state (Option (IpRateLimiter lib)) g) name value (stateless handler)
stateless-Keeps lib g name value handler k (l, c) h = of_outcome (handler c) (k c h)
  where
    of_outcome :
        (o : Outcome g.Context)
        → HasHeader g name value (final o)
        → HasHeader (with_state (Option (IpRateLimiter lib)) g) name value (final (carried l o))
    of_outcome (returned c') h = h
    of_outcome (panicked c') h = h

limit_requests-Keeps :
    (lib : RateLibrary) (g : Gin Body) (name : String) (value : Bytes)
    (next : Handler (Option (IpRateLimiter lib) × g.Context))
    → Keeps (with_state (Option (IpRateLimiter lib)) g) name value next
    → Keeps (with_state (Option (IpRateLimiter lib)) g) name value (limit_requests lib g next)
unfolding limit_requests
limit_requests-Keeps lib g name value next k (none, c) h = k (none, c) h
limit_requests-Keeps lib g name value next k (some l, c) h =
    let v = g.view c in
    let (l', granted) = allow_ip lib v.request.client_ip v.now l in
    let lim = with_state (Option (IpRateLimiter lib)) g in
    let ended : Ends lim name value (
        if granted
        then next (some l', c)
        else returned (some l', abort_error g Errcode.too_many_requests c)) =
      if-Ends lim name value granted (record { at = k (some l', c) h })
        (record { at = abort_error-HasHeader g name value Errcode.too_many_requests c h }) in
    ended.at

module _ (lib : RateLibrary) (g : Gin Body) (cfg : EngineConfig) where
  guarded_below-Keeps :
      (name : String) (value : Bytes) (handler : Handler g.Context)
      → IsForeign (Limited lib g cfg) name value
      → Keeps g name value handler
      → let lim = Limited lib g cfg in
        Keeps lim name value (
          max_body_bytes lim cfg.body_max_bytes (
            timeout lim cfg.request_timeout (
              cors lim cfg.allow_origins cfg.allow_credentials
                (limit_requests lib g (stateless handler)))))
  guarded_below-Keeps name value handler f k =
      let lim = Limited lib g cfg in
      max_body_bytes-Keeps lim name value cfg.body_max_bytes _ (
        timeout-Keeps lim name value cfg.request_timeout _ (
          cors-Keeps lim name value cfg.allow_origins cfg.allow_credentials _ f
            (limit_requests-Keeps lib g name value _ (stateless-Keeps lib g name value handler k))))

  set_security-HasHeader :
      (c : (Limited lib g cfg).Context)
      → let lim = Limited lib g cfg in
        HasHeader lim "X-Content-Type-Options" (codes "nosniff") (
          lim.header "Referrer-Policy" (codes "no-referrer") (
            lim.header "X-Frame-Options"
              (codes "DENY")
              (lim.header "X-Content-Type-Options" (codes "nosniff") c)))
  set_security-HasHeader c =
      let lim = Limited lib g cfg in
      let name : String = "X-Content-Type-Options" in
      let value = codes "nosniff" in
      let set : HasHeader lim name value (lim.header name value c) = simp lim.view-header refl in
      header-HasHeader lim name value "Referrer-Policy" (codes "no-referrer")
        (lim.header "X-Frame-Options" (codes "DENY") (lim.header name value c)) refl
        (header-HasHeader lim name value "X-Frame-Options" (codes "DENY") (lim.header name value c)
          refl set)

  if_on :
      (b : Bool) (c : (Limited lib g cfg).Context)
      → b ≡ true
      → let lim = Limited lib g cfg in
        HasHeader lim "X-Content-Type-Options" (codes "nosniff") (
          if b
          then lim.header "Referrer-Policy" (codes "no-referrer") (
              lim.header "X-Frame-Options"
                (codes "DENY")
                (lim.header "X-Content-Type-Options" (codes "nosniff") c))
          else c)
  if_on true c on = set_security-HasHeader c
  if_on false c on = cc

  -- With the security headers on, every answer has "X-Content-Type-Options: nosniff", if the route's
  -- own handler does not change that header: also the answers that Timeout, CORS, the rate limiter
  -- and, after a panic, Recovery write in the handler's place.
  pub below_metrics_nosniff :
      (handler : Handler g.Context) (c : (Limited lib g cfg).Context)
      → cfg.security_headers_enabled ≡ true
      → Keeps g "X-Content-Type-Options" (codes "nosniff") handler
      → HasHeader
          (Limited lib g cfg)
          "X-Content-Type-Options"
          (codes "nosniff")
          (final (below_metrics lib g cfg handler c))
  unfolding below_metrics guarded security_headers recovery
  below_metrics_nosniff handler c on k =
      let lim = Limited lib g cfg in
      let foreign : IsForeign lim "X-Content-Type-Options" (codes "nosniff") = record {
        vary = refl;
        origin = refl;
        methods = refl;
        headers = refl;
        credentials = refl;
      } in
      recovered-HasHeader lim "X-Content-Type-Options" (codes "nosniff")
        (guarded lib g cfg handler c)
        (guarded_below-Keeps "X-Content-Type-Options" (codes "nosniff") handler foreign k _
          (if_on cfg.security_headers_enabled c on))
