-- ===== src/Middleware/RateLimit/Sample.antt =====
-- A limiter that only counts: its bucket is never refilled.
use go_skeleton.Base.{ℕ, zero, suc, ◌≤◌, refl, Bool, true, false, List, [], ◌∷◌, arith, length}
use go_skeleton.Model.{Time}
use go_skeleton.Middleware.RateLimit.{RateLibrary, grants, AllGranted}

abbrev pub count_down : Time → ℕ → ℕ × Bool
count_down now zero = (zero, false)
count_down now (suc n) = (n, true)

pub count_down-grants :
    (burst : ℕ) (times : List Time)
    → length times ≤ burst
    → AllGranted (grants count_down burst times)
count_down-grants burst [] h = tt
count_down-grants zero (t ∷ times) h = elim h [ ]
count_down-grants (suc n) (t ∷ times) h = (refl, count_down-grants n times (omega arith))

abbrev pub counting : RateLibrary
counting = record {
  Limit = ℕ;
  Limiter = ℕ;
  every = λ interval. interval;
  new_limiter = λ limit burst. burst;
  allow = count_down;
  grants-new_limiter = λ limit burst times. count_down-grants burst times;
}
