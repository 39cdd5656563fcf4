-- ===== src/Middleware/RateLimit/Budget.antt =====
-- The first requests of an address are granted, as many as the limiter's rate for a minute.
use go_skeleton.Base.{
  ℕ, zero, suc, ◌-◌, ◌*◌, ◌≤◌, ◌≡◌, refl, sym, Bool, true, false, Option, none, some, List, [], ◌∷◌,
  arith, inl, inr, Bool-cases, if◌then◌else◌, length, ◌∙◌, subst,
}
use go_skeleton.Base.Int.{ℤ, pos, negsuc, ◌≤ℤ◌}
use go_skeleton.Base.Text.{Bytes, beq, beq_iff}
use go_skeleton.Base.Dict.{
  lookup, kept, IsMap, lookup-insert, insert-IsMap, lookup-keep, keep-IsMap,
  stored_of_lookup-insert,
}
use go_skeleton.Model.{Time}
use go_skeleton.Middleware.RateLimit.{
  RateLibrary, IpRateLimiter, Visitor, allow_ip, visitor_or, cleanup, Event, request, tick,
  verdicts, verdicts_own, minute, grants, AllGranted, new_per_minute, fresh,
}

module _ (lib : RateLibrary) where
  open lib use {Limiter, allow, new_limiter}

  -- How often an address asks in a run.
  unfoldable pub asked : Bytes → List (Event lib) → ℕ
  asked ip [] = 0
  asked ip (request from now ∷ events) =
      if beq from ip then suc (asked ip events) else asked ip events
  asked ip (tick now ∷ events) = asked ip events

  -- The limiter grants the next `n` requests.
  abbrev HasBudget : Limiter → ℕ → Type 0
  HasBudget limiter n =
      (times : List Time) → length times ≤ n → AllGranted (grants allow limiter times)

  -- The address `ip` is granted its next `n` requests.
  record IsReady (ip : Bytes) (l : IpRateLimiter lib) (n : ℕ) : Type 0 where
    burst : n ≤ l.burst
    known : (v : Visitor lib) → lookup ip l.visitors ≡ some v → HasBudget v.limiter n
    map : IsMap l.visitors

  module _ (ip : Bytes) where
    visitor_or_budget :
        (l : IpRateLimiter lib) (n : ℕ) (o : Option (Visitor lib))
        → n ≤ l.burst
        → ((v : Visitor lib) → o ≡ some v → HasBudget v.limiter n)
        → HasBudget (visitor_or lib l o) n
    visitor_or_budget l n none b h =
        λ times short. lib.grants-new_limiter l.rate l.burst times (omega arith)
    visitor_or_budget l n (some v) b h = h v refl

    allow_ip_granted :
        (now : Time) (l : IpRateLimiter lib) (n : ℕ)
        → IsReady ip l (suc n)
        → ((allow_ip lib ip now l).1 ≡ true) × IsReady ip (allow_ip lib ip now l).0 n
    unfolding allow_ip
    allow_ip_granted now l n r =
        let budget = visitor_or_budget l (suc n) (lookup ip l.visitors) r.burst r.known in
        (
          (budget (now ∷ []) (omega arith)).0,
          record {
            burst = omega (arith, r.burst);
            known = λ v e times short.
                subst (λ (w : Visitor lib). AllGranted (grants allow w.limiter times))
                  (stored_of_lookup-insert ip _ v l.visitors e)
                  (budget (now ∷ times) (omega arith)).1;
            map = insert-IsMap ip _ l.visitors r.map;
          },
        )

    allow_ip_other-IsReady :
        (from : Bytes) (now : Time) (l : IpRateLimiter lib) (n : ℕ)
        → beq from ip ≡ false
        → IsReady ip l n
        → IsReady ip (allow_ip lib from now l).0 n
    unfolding allow_ip
    allow_ip_other-IsReady from now l n other r = record {
      burst = r.burst;
      known = λ v e. r.known v (rw other at (sym (lookup-insert from ip _ l.visitors) ∙ e));
      map = insert-IsMap from _ l.visitors r.map;
    }

    cleanup-IsReady :
        (cutoff : Time) (l : IpRateLimiter lib) (n : ℕ)
        → IsReady ip l n
        → IsReady ip (cleanup lib cutoff l) n
    unfolding cleanup
    cleanup-IsReady cutoff l n r = record {
      burst = r.burst;
      known = λ v e.
          r.known v
            (of_kept _ (lookup ip l.visitors) (sym (lookup-keep _ ip l.visitors r.map) ∙ e));
      map = keep-IsMap _ l.visitors r.map;
    }
      where
        of_kept :
            {V : Type 0} (p : V → Bool) (o : Option V) {v : V} → kept p o ≡ some v → o ≡ some v
        of_kept p none e = e
        of_kept p (some w) e = ground arith

    asked_own :
        (from : Bytes) (now : Time) (events : List (Event lib)) (n : ℕ)
        → beq from ip ≡ true
        → asked ip (request from now ∷ events) ≤ n
        → suc (asked ip events) ≤ n
    unfolding asked
    asked_own from now events n same h = rw same at h

    own_granted :
        (n : ℕ) (now : Time) (l : IpRateLimiter lib) (events : List (Event lib))
        → suc (asked ip events) ≤ n
        → IsReady ip l n
        → ((m : ℕ) (k : IpRateLimiter lib)
            → asked ip events ≤ m
            → IsReady ip k m
            → AllGranted (verdicts lib ip k events))
        → AllGranted (verdicts lib ip l (request ip now ∷ events))
    own_granted zero now l events h r later = absurd (omega arith)
    own_granted (suc n) now l events h r later =
        let (granted, ready) = allow_ip_granted now l n r in
        rw (verdicts_own lib ip now l events)
          (granted, later n (allow_ip lib ip now l).0 (omega arith) ready)

    ready_granted :
        (n : ℕ) (l : IpRateLimiter lib) (events : List (Event lib))
        → asked ip events ≤ n
        → IsReady ip l n
        → AllGranted (verdicts lib ip l events)
    unfolding verdicts asked
    ready_granted n l [] h r = tt
    ready_granted n l (tick now ∷ events) h r =
        ready_granted n (cleanup lib (now - 3 * minute) l) events h
          (cleanup-IsReady (now - 3 * minute) l n r)
    ready_granted n l (request from now ∷ events) h r = elim (Bool-cases (beq from ip)) [
      | inl same ↦ rw ((beq_iff from ip).0 same) (
          own_granted n now l events (asked_own from now events n same h) r
            (λ m k. ready_granted m k events))
      | inr other ↦ rw other (
          ready_granted n (allow_ip lib from now l).0 events (rw other at h)
            (allow_ip_other-IsReady from now l n other r))
    ]

-- On a limiter for `rate` requests a minute, an address that asks at most `rate` times in a run is
-- granted every time, whatever other addresses ask and however often the sweep runs.
pub first_requests_granted :
    (lib : RateLibrary) (rate : ℤ) (l : IpRateLimiter lib) (ip : Bytes) (events : List (Event lib))
    → new_per_minute lib rate ≡ some l
    → pos (asked lib ip events) ≤ℤ rate
    → AllGranted (verdicts lib ip l events)
unfolding new_per_minute lookup
first_requests_granted lib (negsuc n) l ip events e h = cc
first_requests_granted lib (pos zero) l ip events e h = cc
first_requests_granted lib (pos (suc n)) l ip events e h =
    subst (λ (k : IpRateLimiter lib). AllGranted (verdicts lib ip k events)) (fresh_eq e)
      (ready_granted lib ip (suc n) (fresh lib n) events (omega arith)
        (record { burst = omega arith; known = λ v p. none_known v p; map = tt }))
  where
    fresh_eq : some (fresh lib n) ≡ some l → fresh lib n ≡ l
    fresh_eq p = cc

    none_known :
        (v : Visitor lib)
        → lookup {V = Visitor lib} ip [] ≡ some v
        → (times : List Time) → length times ≤ suc n
        → AllGranted (grants lib.allow v.limiter times)
    none_known v p = cc
