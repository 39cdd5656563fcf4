-- ===== src/Server/Tests.antt =====
-- The chain on a context that keeps its view, round a handler that panics and one that answers.
use go_skeleton.Base.{◌*◌, ◌≡◌, refl, true, false, none, [], ◌∷◌}
use go_skeleton.Base.Int.{pos, second}
use go_skeleton.Base.Text.{codes, trim}
use go_skeleton.Errcode
use go_skeleton.Wire.{Body}
use go_skeleton.Gin.{Gin, View, Handler, returned, panicked, final}
use go_skeleton.Gin.Recording.{recording}
use go_skeleton.Metrics.{HttpMetrics, labels_of, numeral}
use go_skeleton.Response.Envelope.{Answers}
use go_skeleton.Response.Sample.{context_at}
use go_skeleton.Middleware.RateLimit.Sample.{counting}
use go_skeleton.Middleware.RateLimit.{limit_requests}
use go_skeleton.Middleware.Headers.{security_headers, max_body_bytes}
use go_skeleton.Middleware.Timeout.{timeout}
use go_skeleton.Middleware.Cors.{cors, with_cors, origin_allowed, origin_of}
use go_skeleton.Server.Engine.{EngineConfig, Limited, guarded, metered, engine}
use go_skeleton.Server.Engine.Chain.{counted, engine_returns, panic_answered}
use go_skeleton.Server.Engine.Headers.{Keeps}

abbrev config : EngineConfig
config = record {
  metrics_enabled = true;
  security_headers_enabled = true;
  body_max_bytes = pos 1024;
  request_timeout = pos (30 * second);
  allow_origins = codes "https://a.example" ∷ [];
  allow_credentials = false;
}

abbrev panics : Handler (View Body)
panics c = panicked c

abbrev no_metrics : HttpMetrics
no_metrics = record { inflight = pos 0; requests = [] }

abbrev gin : Gin Body
gin = recording Body

abbrev start : (Limited counting gin config).Context
start = (none, context_at 7)

engine_returns_example :
    (c' : (Limited counting gin config).Context) × (engine counting gin config
        (codes "id1")
        panics
        (no_metrics, start)
      ≡ returned (counted counting gin config no_metrics c', c'))
engine_returns_example = engine_returns counting gin config (codes "id1") panics no_metrics start

-- The context when the handler panics, deep in the chain.
abbrev reached : (Limited counting gin config).Context
reached = final (guarded counting gin config panics start)

panicked_there : guarded counting gin config panics start ≡ panicked reached
unfolding guarded security_headers max_body_bytes timeout cors limit_requests with_cors
    origin_allowed trim
panicked_there = refl

silent_there : ((Limited counting gin config).view reached).sent ≡ []
unfolding guarded security_headers max_body_bytes timeout cors limit_requests with_cors
    origin_allowed origin_of trim
silent_there = refl

panic_answered_example :
    (c'' : (Limited counting gin config).Context) × (metered counting gin config panics
        (no_metrics, start)
      ≡ returned (counted counting gin config no_metrics c'', c''))
    × Answers Errcode.internal_error
        ((Limited counting gin config).view reached)
        ((Limited counting gin config).view c'')
    × ((labels_of (Limited counting gin config) c'').status ≡ 500)
    × ((labels_of (Limited counting gin config) c'').code ≡ numeral (pos 9001))
panic_answered_example =
    panic_answered counting gin config panics no_metrics start reached panicked_there silent_there

panics-Keeps : Keeps gin "X-Content-Type-Options" (codes "nosniff") panics
panics-Keeps c h = h
