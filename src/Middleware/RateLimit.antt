-- ===== src/Middleware/RateLimit.antt =====
-- internal/middleware/rate_limit.go: one token bucket for each client address, and the sweep that
-- drops the addresses not seen for three minutes. The mutex makes each call one step, so a run is
-- the list of its steps. golang.org/x/time/rate is not part of the repository: `RateLibrary`.
pub mod Isolation
pub mod Budget
pub mod Lifecycle
pub mod Sample
mod Tests
use go_skeleton.Base.{
  ℕ, zero, suc, ◌-◌, ◌*◌, ◌/◌, ◌≤◌, ◌≡◌, Bool, true, false, not, Option, none, some, List, [], ◌∷◌,
  if◌then◌else◌, ltb, length, All,
}
use go_skeleton.Base.Int.{ℤ, pos, negsuc, second}
use go_skeleton.Base.Text.{Bytes, beq, beq_self}
use go_skeleton.Base.Dict.{Dict, lookup, insert, keep}
use go_skeleton.Errcode
use go_skeleton.Model.{Time}
use go_skeleton.Wire.{Body}
use go_skeleton.Gin.{Gin, View, Middleware, returned}
use go_skeleton.Response.{abort_error}

-- The answers of a limiter to requests at the given times.
abbrev pub grants : {L : Type 0} → (Time → L → L × Bool) → L → List Time → List Bool
grants allow limiter [] = []
grants allow limiter (now ∷ times) =
    (allow now limiter).1 ∷ grants allow (allow now limiter).0 times

abbrev pub AllGranted : List Bool → Type 0
AllGranted = All (λ b. b ≡ true)

-- rate.Every, rate.NewLimiter and (*Limiter).Allow. A new limiter's bucket is full: it grants as
-- many requests as its burst, whenever they come.
pub record RateLibrary : Type 1 where
  pub Limit : Type 0
  pub Limiter : Type 0
  pub every : ℕ → Limit
  pub new_limiter : Limit → ℕ → Limiter
  pub allow : Time → Limiter → Limiter × Bool
  pub grants-new_limiter :
      (limit : Limit) (burst : ℕ) (times : List Time)
      → length times ≤ burst
      → AllGranted (grants allow (new_limiter limit burst) times)

abbrev pub minute : ℕ
minute = 60 * second

module _ (lib : RateLibrary) where
  open lib use {Limit, Limiter, every, new_limiter, allow}

  pub record Visitor : Type 0 where
    pub limiter : Limiter
    pub last_seen : Time

  -- IPRateLimiter, less its mutex and its channels.
  pub record IpRateLimiter : Type 0 where
    pub visitors : Dict Visitor
    pub rate : Limit
    pub burst : ℕ

  abbrev pub fresh : ℕ → IpRateLimiter
  fresh n = record { visitors = []; rate = every (minute / suc n); burst = suc n }

  -- NewIPRateLimiterPerMinute; nil is `none`.
  unfoldable pub new_per_minute : ℤ → Option IpRateLimiter
  new_per_minute (negsuc n) = none
  new_per_minute (pos zero) = none
  new_per_minute (pos (suc n)) = some (fresh n)

  -- The visitor that `allow` works on: the one known for the address, or a new one.
  abbrev pub visitor_or : IpRateLimiter → Option Visitor → Limiter
  visitor_or l none = new_limiter l.rate l.burst
  visitor_or l (some v) = v.limiter

  -- (*IPRateLimiter).allow
  unfoldable pub allow_ip : Bytes → Time → IpRateLimiter → IpRateLimiter × Bool
  allow_ip ip now l =
      let (limiter, granted) = allow now (visitor_or l (lookup ip l.visitors)) in
      (
        record l {
          visitors = insert ip (record { limiter = limiter; last_seen = now }) l.visitors;
        },
        granted,
      )

  -- (*IPRateLimiter).cleanup
  unfoldable pub cleanup : Time → IpRateLimiter → IpRateLimiter
  cleanup cutoff l = record l { visitors = keep (λ v. not (ltb v.last_seen cutoff)) l.visitors }

  -- A step: a request of an address, or a tick of cleanupLoop.
  pub data Event : Type 0 where
    request : Bytes → Time → Event
    tick : Time → Event

  abbrev pub answer : Bytes → Bytes → Bool → List Bool → List Bool
  answer ip from granted rest = if beq from ip then granted ∷ rest else rest

  -- The answers that the address `ip` gets in a run.
  unfoldable pub verdicts : Bytes → IpRateLimiter → List Event → List Bool
  verdicts ip l [] = []
  verdicts ip l (request from now ∷ events) =
      answer ip from (allow_ip from now l).1 (verdicts ip (allow_ip from now l).0 events)
  verdicts ip l (tick now ∷ events) = verdicts ip (cleanup (now - 3 * minute) l) events

  pub verdicts_own :
      (ip : Bytes) (now : Time) (l : IpRateLimiter) (events : List Event)
      → verdicts ip l (request ip now ∷ events)
        ≡ (allow_ip ip now l).1 ∷ verdicts ip (allow_ip ip now l).0 events
  unfolding verdicts
  verdicts_own ip now l events = rw (beq_self ip)

  module _ (g : Gin Body) where
    open g use {Context, view}

    -- (*IPRateLimiter).Middleware, on contexts that carry the limiter; `none` is a nil limiter.
    unfoldable pub limit_requests : Middleware (Option IpRateLimiter × Context)
    limit_requests next (none, c) = next (none, c)
    limit_requests next (some l, c) =
        let v = view c in
        let (l', granted) = allow_ip v.request.client_ip v.now l in
        if granted
        then next (some l', c)
        else returned (some l', abort_error g Errcode.too_many_requests c)
