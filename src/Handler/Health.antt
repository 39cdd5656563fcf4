-- ===== src/Handler/Health.antt =====
-- internal/handler/health.go: the probes. What a Ping gives, where a dependency is configured, is an
-- argument; the three pings run at once and share no state but the context's deadline.
use go_skeleton.Base.{
  ℕ, String, ◌≡◌, ◌≢◌, ◌↔◌, ap, arith, Bool-cases, ◌⊎◌, inl, inr, Bool, true, false, not, ◌||◌,
  Option, none, some, [], ◌∷◌, ◌++◌, Result, ok, err, if◌then◌else◌,
}
use go_skeleton.Wire.{
  Body, live, health, HealthResponse, healthy, degraded, unhealthy, Check, check_ok, unavailable,
  not_configured,
}
use go_skeleton.Gin.{Gin, View, Handler, returned, final}

-- A dependency that is not configured, or what its Ping gives.
abbrev pub Ping : Type 0
Ping = Option (Result String (Unit {0}))

-- handler.HealthHandler; `draining` is none where the process takes no part in draining.
pub record HealthHandler : Type 0 where
  pub db : Ping
  pub cache : Ping
  pub queue : Ping
  pub draining : Option Bool

abbrev pub is_draining : Option Bool → Bool
is_draining none = false
is_draining (some d) = d

-- The two switches of a dependency: its check, and whether it is held to be healthy.
abbrev pub check_of : Ping → Check
check_of none = not_configured
check_of (some (err e)) = unavailable
check_of (some (ok _)) = check_ok

abbrev pub required_healthy : Ping → Bool
required_healthy none = false
required_healthy (some (err e)) = false
required_healthy (some (ok _)) = true

abbrev pub optional_healthy : Ping → Bool
optional_healthy none = true
optional_healthy (some (err e)) = false
optional_healthy (some (ok _)) = true

unfoldable pub health_response : HealthHandler → ℕ × HealthResponse
health_response h =
    if is_draining h.draining
    then (
      503,
      record {
        status = unhealthy;
        postgres = unavailable;
        redis = unavailable;
        queue = unavailable;
      },
    )
    else (
      if not (required_healthy h.db) then 503 else 200,
      record {
        status =
            if not (required_healthy h.db)
            then unhealthy
            else if not (optional_healthy h.cache) || not (optional_healthy h.queue)
            then degraded
            else healthy;
        postgres = check_of h.db;
        redis = check_of h.cache;
        queue = check_of h.queue;
      },
    )

-- What the answer's status says.
pub record IsReadiness (h : HealthHandler) (status : ℕ) (r : HealthResponse) : Type 0 where
  pub known : (status ≡ 200) ⊎ (status ≡ 503)
  pub ready : (status ≡ 200) ↔ (is_draining h.draining ≡ false) × (h.db ≡ some (ok tt))
  pub unready : (status ≡ 503) ↔ (r.status ≡ unhealthy)
  pub full :
      (r.status ≡ healthy) ↔ (status ≡ 200) × (r.redis ≢ unavailable) × (r.queue ≢ unavailable)

required_healthy_iff : (p : Ping) → (required_healthy p ≡ true) ↔ (p ≡ some (ok tt))
required_healthy_iff none = ground arith
required_healthy_iff (some (err e)) = ground arith
required_healthy_iff (some (ok u)) = ground arith

optional_healthy_iff : (p : Ping) → (optional_healthy p ≡ true) ↔ (check_of p ≢ unavailable)
optional_healthy_iff none = ground arith
optional_healthy_iff (some (err e)) = ground arith
optional_healthy_iff (some (ok u)) = ground arith

health_response-IsReadiness :
    (h : HealthHandler) → IsReadiness h (health_response h).0 (health_response h).1
unfolding health_response
health_response-IsReadiness h =
    let db = required_healthy_iff h.db in
    let cache = optional_healthy_iff h.cache in
    let queue = optional_healthy_iff h.queue in
    elim (Bool-cases (is_draining h.draining)) [
      | inl on ↦ record {
        known = ground arith;
        ready = ground arith;
        unready = ground arith;
        full = ground arith;
      }
      | inr off ↦ record {
        known = ground arith;
        ready = ground arith;
        unready = ground arith;
        full = ground arith;
      }
    ]

module _ (g : Gin Body) where
  open g use {Context, view, json}

  unfoldable pub live_handler : Handler Context
  live_handler c = returned (json 200 live c)

  unfoldable pub health_handler : HealthHandler → Handler Context
  health_handler h c =
      let (status, response) = health_response h in returned (json status (health response) c)

  -- The readiness probe answers once. The answer is 200 exactly when the process is not draining and
  -- its database answers a ping; a cache or a queue that fails its ping makes it "degraded", still
  -- with 200, and one that is not configured does not.
  pub health_handler_lem :
      (h : HealthHandler) (c : Context)
      → (status : ℕ) × (r : HealthResponse) × ((view (final (health_handler h c))).sent
          ≡ (view c).sent ++ (status, some (health r)) ∷ [])
        × IsReadiness h status r
  unfolding health_handler
  health_handler_lem h c = (
    (health_response h).0,
    (health_response h).1,
    ap (λ (v : View Body). v.sent) (g.view-json _ _ c),
    health_response-IsReadiness h,
  )
