-- ===== src/Server/Engine/Chain.antt =====
-- What holds of the whole chain for every handler, also one that panics.
use go_skeleton.Base.{
  ℕ, ◌≡◌, refl, ap, ◌∙◌, Option, List, [], ◌∷◌, ◌++◌, if◌then◌else◌, Bool-cases, inl, inr,
}
use go_skeleton.Base.Int.{pos}
use go_skeleton.Base.Text.{Bytes}
use go_skeleton.Errcode
use go_skeleton.Errcode.{http_status, code_of, reason_of}
use go_skeleton.Wire.{Body}
use go_skeleton.Gin.{Gin, Handler, Outcome, returned, panicked}
use go_skeleton.Gin.State.{carried}
use go_skeleton.Metrics.{
  HttpMetrics, numeral, labels_of, first_status, http_middleware_returned, business_code_label,
}
use go_skeleton.Response.{abort_error}
use go_skeleton.Response.Envelope.{Answers, abort_error-Answers}
use go_skeleton.Middleware.Recovery.{recovery, recovered}
use go_skeleton.Middleware.RateLimit.{RateLibrary}
use go_skeleton.Middleware.TraceLogger.{trace_logger, traced}
use go_skeleton.Server.Engine.{EngineConfig, Limited, guarded, below_metrics, metered, engine}

module _ (lib : RateLibrary) (g : Gin Body) (cfg : EngineConfig) where
  -- The metrics after one request that ended in the context `c`.
  abbrev pub counted : HttpMetrics → (Limited lib g cfg).Context → HttpMetrics
  counted m c = record {
    inflight = m.inflight;
    requests =
        if cfg.metrics_enabled
        then m.requests ++ labels_of (Limited lib g cfg) c ∷ []
        else m.requests;
  }

  metered_of_returned :
      (handler : Handler g.Context) (m : HttpMetrics) (c c' : (Limited lib g cfg).Context)
      → below_metrics lib g cfg handler c ≡ returned c'
      → metered lib g cfg handler (m, c) ≡ returned (counted m c', c')
  unfolding metered
  metered_of_returned handler m c c' e = elim (Bool-cases cfg.metrics_enabled) [
    | inl on ↦
        simp on
          (http_middleware_returned (Limited lib g cfg) (below_metrics lib g cfg handler) m c c' e)
    | inr off ↦ simp off (ap (carried m) e)
  ]

  recovery_returns :
      (handler : Handler g.Context) (c : (Limited lib g cfg).Context)
      → (c' : (Limited lib g cfg).Context) × (below_metrics lib g cfg handler c ≡ returned c')
  unfolding below_metrics recovery
  recovery_returns handler c = of_outcome (guarded lib g cfg handler c)
    where
      of_outcome :
          (o : Outcome (Limited lib g cfg).Context)
          → (c' : (Limited lib g cfg).Context) × (recovered (Limited lib g cfg) o ≡ returned c')
      of_outcome (returned c') = (c', refl)
      of_outcome (panicked c') = (abort_error (Limited lib g cfg) Errcode.internal_error c', refl)

  -- Whatever a route's handler does, a panic included, the chain returns; the number of requests in
  -- flight is as before, and one more request is counted, if the metrics are on, with the labels of
  -- the response.
  pub engine_returns :
      (uuid : Bytes) (handler : Handler g.Context) (m : HttpMetrics)
      (c : (Limited lib g cfg).Context)
      → (c' : (Limited lib g cfg).Context) × (engine lib g cfg uuid handler (m, c)
          ≡ returned (counted m c', c'))
  unfolding engine trace_logger
  engine_returns uuid handler m c =
      let (c', e) = recovery_returns handler (traced (Limited lib g cfg) uuid c) in
      (c', metered_of_returned handler m (traced (Limited lib g cfg) uuid c) c' e)

  -- A panic below Recovery, before any response is written, is answered by one response: HTTP status
  -- 500 with the envelope of INTERNAL_ERROR; the metrics, if they are on, count that status and code.
  pub panic_answered :
      (handler : Handler g.Context) (m : HttpMetrics) (c c' : (Limited lib g cfg).Context)
      → guarded lib g cfg handler c ≡ panicked c'
      → ((Limited lib g cfg).view c').sent ≡ []
      → (c'' : (Limited lib g cfg).Context) × (metered lib g cfg handler (m, c)
          ≡ returned (counted m c'', c''))
        × Answers Errcode.internal_error
            ((Limited lib g cfg).view c')
            ((Limited lib g cfg).view c'')
        × ((labels_of (Limited lib g cfg) c'').status ≡ 500)
        × ((labels_of (Limited lib g cfg) c'').code ≡ numeral (pos 9001))
  unfolding below_metrics recovery http_status code_of business_code_label
  panic_answered handler m c c' e silent =
      let lim = Limited lib g cfg in
      let (answers, _) = abort_error-Answers lim Errcode.internal_error c' in
      let ended : below_metrics lib g cfg handler c
          ≡ returned (abort_error lim Errcode.internal_error c') =
        ap (recovered lim) e in
      (
        abort_error lim Errcode.internal_error c',
        metered_of_returned handler m c (abort_error lim Errcode.internal_error c') ended,
        answers,
        ap first_status answers.sent ∙ first_of_silent (lim.view c').sent _ silent,
        ap business_code_label answers.metered,
      )
    where
      first_of_silent :
          (sent : List (ℕ × Option Body)) (b : Option Body)
          → sent ≡ []
          → first_status (sent ++ (http_status Errcode.internal_error, b) ∷ []) ≡ 500
      first_of_silent sent b p = rw p
