-- ===== src/Server/Engine.antt =====
-- newEngine of internal/server.go: the order of the middleware round a route's handler. The limiter
-- and the metrics are states that the contexts carry; the settings say which parts there are.
pub mod Chain
pub mod Headers
pub mod Security
use go_skeleton.Base.{ℕ, Bool, Option, none, some, List, if◌then◌else◌}
use go_skeleton.Base.Int.{ℤ}
use go_skeleton.Base.Text.{Bytes}
use go_skeleton.Wire.{Body}
use go_skeleton.Gin.{Gin, Handler, Outcome}
use go_skeleton.Gin.State.{with_state, stateless}
use go_skeleton.Metrics.{HttpMetrics, http_middleware}
use go_skeleton.Middleware.Headers.{security_headers, max_body_bytes}
use go_skeleton.Middleware.TraceLogger.{trace_logger}
use go_skeleton.Middleware.Timeout.{timeout}
use go_skeleton.Middleware.Recovery.{recovery}
use go_skeleton.Middleware.Cors.{cors}
use go_skeleton.Middleware.RateLimit.{RateLibrary, IpRateLimiter, limit_requests}

-- The settings that the chain reads.
pub record EngineConfig : Type 0 where
  pub metrics_enabled : Bool
  pub security_headers_enabled : Bool
  pub body_max_bytes : ℤ
  pub request_timeout : ℤ
  pub allow_origins : List Bytes
  pub allow_credentials : Bool

module _ (lib : RateLibrary) (g : Gin Body) (cfg : EngineConfig) where
  -- Contexts with the limiter, and with the metrics too.
  abbrev pub Limited : Gin Body
  Limited = with_state (Option (IpRateLimiter lib)) g

  abbrev pub Metered : Gin Body
  Metered = with_state HttpMetrics Limited

  -- What Recovery guards: the middleware below it and the route's handler.
  unfoldable pub guarded : Handler g.Context → Handler Limited.Context
  guarded handler = security_headers Limited cfg.security_headers_enabled (
      max_body_bytes Limited cfg.body_max_bytes (
        timeout Limited cfg.request_timeout (
          cors Limited cfg.allow_origins cfg.allow_credentials
            (limit_requests lib g (stateless handler)))))

  unfoldable pub below_metrics : Handler g.Context → Handler Limited.Context
  unfolding guarded
  below_metrics handler = recovery Limited (guarded handler)

  unfoldable pub metered : Handler g.Context → Handler Metered.Context
  metered handler =
      if cfg.metrics_enabled
      then http_middleware Limited (below_metrics handler)
      else stateless (below_metrics handler)

  -- The whole chain of one route; `uuid` is the id that TraceLogger makes if the request has none.
  unfoldable pub engine : Bytes → Handler g.Context → Handler Metered.Context
  unfolding metered below_metrics
  engine uuid handler = trace_logger Metered uuid (metered handler)
