-- ===== src/Middleware/RateLimit/Isolation.antt =====
-- The requests of other addresses do not change what an address is granted.
use go_skeleton.Base.{
  ◌-◌, ◌*◌, ◌≡◌, refl, sym, ap, ◌∙◌, false, List, [], ◌∷◌, inl, inr, Bool-cases, if◌then◌else◌,
}
use go_skeleton.Base.Text.{Bytes, beq, beq_iff, beq_self}
use go_skeleton.Base.Dict.{
  lookup, kept, IsMap, lookup-insert, insert-IsMap, lookup-keep, keep-IsMap,
}
use go_skeleton.Model.{Time}
use go_skeleton.Middleware.RateLimit.{
  RateLibrary, IpRateLimiter, allow_ip, cleanup, Event, request, tick, verdicts, verdicts_own,
  minute,
}

module _ (lib : RateLibrary) where
  -- The run without the requests of other addresses.
  unfoldable pub only : Bytes → List (Event lib) → List (Event lib)
  only ip [] = []
  only ip (request from now ∷ events) =
      if beq from ip then request from now ∷ only ip events else only ip events
  only ip (tick now ∷ events) = tick now ∷ only ip events

  -- Two limiters that `ip` cannot tell apart.
  pub record Alike (ip : Bytes) (l k : IpRateLimiter lib) : Type 0 where
    pub visitor : lookup ip l.visitors ≡ lookup ip k.visitors
    pub rate : l.rate ≡ k.rate
    pub burst : l.burst ≡ k.burst
    pub left_map : IsMap l.visitors
    pub right_map : IsMap k.visitors

  module _ (ip : Bytes) where
    allow_ip_same :
        (now : Time) (l k : IpRateLimiter lib)
        → Alike ip l k
        → (allow_ip lib ip now l).1 ≡ (allow_ip lib ip now k).1
    unfolding allow_ip
    allow_ip_same now l k a = cc (a.visitor, a.rate, a.burst)

    allow_ip-Alike :
        (now : Time) (l k : IpRateLimiter lib)
        → Alike ip l k
        → Alike ip (allow_ip lib ip now l).0 (allow_ip lib ip now k).0
    unfolding allow_ip
    allow_ip-Alike now l k a = record {
      visitor = simp (lookup-insert, beq_self) (cc (a.visitor, a.rate, a.burst));
      rate = a.rate;
      burst = a.burst;
      left_map = insert-IsMap ip _ l.visitors a.left_map;
      right_map = insert-IsMap ip _ k.visitors a.right_map;
    }

    allow_ip_other :
        (from : Bytes) (now : Time) (l k : IpRateLimiter lib)
        → beq from ip ≡ false
        → Alike ip l k
        → Alike ip (allow_ip lib from now l).0 k
    unfolding allow_ip
    allow_ip_other from now l k other a = record {
      visitor = simp (lookup-insert, other) a.visitor;
      rate = a.rate;
      burst = a.burst;
      left_map = insert-IsMap from _ l.visitors a.left_map;
      right_map = a.right_map;
    }

    cleanup-Alike :
        (cutoff : Time) (l k : IpRateLimiter lib)
        → Alike ip l k
        → Alike ip (cleanup lib cutoff l) (cleanup lib cutoff k)
    unfolding cleanup
    cleanup-Alike cutoff l k a = record {
      visitor =
          lookup-keep _ ip l.visitors a.left_map
          ∙ ap (kept _) a.visitor
          ∙ sym (lookup-keep _ ip k.visitors a.right_map);
      rate = a.rate;
      burst = a.burst;
      left_map = keep-IsMap _ l.visitors a.left_map;
      right_map = keep-IsMap _ k.visitors a.right_map;
    }

    only_own :
        (now : Time) (events : List (Event lib))
        → only ip (request ip now ∷ events) ≡ request ip now ∷ only ip events
    unfolding only
    only_own now events = rw (beq_self ip)

    verdicts-only :
        (l k : IpRateLimiter lib) (events : List (Event lib))
        → Alike ip l k
        → verdicts lib ip l events ≡ verdicts lib ip k (only ip events)
    unfolding verdicts only
    verdicts-only l k [] a = refl
    verdicts-only l k (tick now ∷ events) a =
        verdicts-only (cleanup lib (now - 3 * minute) l) (cleanup lib (now - 3 * minute) k) events
          (cleanup-Alike (now - 3 * minute) l k a)
    verdicts-only l k (request from now ∷ events) a = elim (Bool-cases (beq from ip)) [
      | inl same ↦ rw ((beq_iff from ip).0 same) (
          verdicts_own lib ip now l events
          ∙ cc (
            allow_ip_same now l k a,
            verdicts-only (allow_ip lib ip now l).0 (allow_ip lib ip now k).0 events
                (allow_ip-Alike now l k a),
          )
          ∙ sym (verdicts_own lib ip now k (only ip events))
          ∙ ap (verdicts lib ip k) (sym (only_own now events)))
      | inr other ↦
          rw other (
            verdicts-only (allow_ip lib from now l).0 k events
              (allow_ip_other from now l k other a))
    ]

-- Whatever other addresses do in between, an address is granted what it would be granted alone.
pub verdicts_isolated :
    (lib : RateLibrary) (ip : Bytes) (l : IpRateLimiter lib) (events : List (Event lib))
    → IsMap l.visitors
    → verdicts lib ip l events ≡ verdicts lib ip l (only lib ip events)
verdicts_isolated lib ip l events h =
    verdicts-only lib ip l l events
      (record { visitor = refl; rate = refl; burst = refl; left_map = h; right_map = h })
