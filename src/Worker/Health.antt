-- ===== src/Worker/Health.antt =====
-- internal/worker/http.go: the readiness probe of a worker. What the two Pings give, which run at once,
-- are arguments; writing JSON is left out.
use go_skeleton.Base.{
  ℕ, ◌≡◌, ◌↔◌, ◌⊎◌, inl, inr, refl, Bool, true, false, not, ◌&&◌, none, some, ok, err, arith,
  if◌then◌else◌,
}
use go_skeleton.Wire.{Check, check_ok, unavailable, not_configured}
use go_skeleton.Handler.Health.{Ping}

-- worker.HealthChecks
pub record HealthChecks : Type 0 where
  pub redis : Ping
  pub db : Ping

-- The body of the answer.
pub record WorkerHealth : Type 0 where
  pub is_ok : Bool
  pub redis_check : Check
  pub postgres_check : Check

unfoldable pub probe : Ping → Check
probe none = not_configured
probe (some (err e)) = unavailable
probe (some (ok _)) = check_ok

abbrev pub is_check_ok : Check → Bool
is_check_ok check_ok = true
is_check_ok unavailable = false
is_check_ok not_configured = false

abbrev pub is_unavailable : Check → Bool
is_unavailable unavailable = true
is_unavailable check_ok = false
is_unavailable not_configured = false

unfoldable pub serve_health : HealthChecks → ℕ × WorkerHealth
unfolding probe
serve_health hc =
    let redis = probe hc.redis in
    let db = probe hc.db in
    let healthy = is_check_ok redis && not (is_unavailable db) in
    (
      if not healthy then 503 else 200,
      record { is_ok = healthy; redis_check = redis; postgres_check = db },
    )

redis_iff : (p : Ping) → (is_check_ok (probe p) ≡ true) ↔ (p ≡ some (ok tt))
unfolding probe
redis_iff none = ground arith
redis_iff (some (err e)) = ground arith
redis_iff (some (ok u)) = ground arith

-- The states of a database with which a worker is ready.
abbrev pub Tolerates : Ping → Type 0
Tolerates p = (p ≡ none) ⊎ (p ≡ some (ok tt))

db_iff : (p : Ping) → (not (is_unavailable (probe p)) ≡ true) ↔ Tolerates p
unfolding probe
db_iff none = (λ h. inl refl, λ h. refl)
db_iff (some (err e)) = (λ h. cc, λ h. elim h [ inl p ↦ cc | inr p ↦ cc ])
db_iff (some (ok u)) = (λ h. inr refl, λ h. refl)

-- A worker is ready, with 200 and "ok", exactly when its Redis answers a ping and its database, if it has
-- one, does too; it answers 503 otherwise.
pub serve_health_lem :
    (hc : HealthChecks)
    → (((serve_health hc).0 ≡ 200) ↔ (hc.redis ≡ some (ok tt)) × Tolerates hc.db)
      × (((serve_health hc).0 ≡ 200) ⊎ ((serve_health hc).0 ≡ 503))
      × (((serve_health hc).1.is_ok ≡ true) ↔ ((serve_health hc).0 ≡ 200))
unfolding serve_health
serve_health_lem hc =
    let redis = redis_iff hc.redis in
    let db = db_iff hc.db in
    (
      (
        λ h. (redis.0 (ground arith), db.0 (ground arith)),
        λ (r, d). ground (arith, redis.1 r, db.1 d),
      ),
      ground arith,
      ground arith,
    )
