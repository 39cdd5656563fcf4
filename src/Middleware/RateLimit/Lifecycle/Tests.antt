-- ===== src/Middleware/RateLimit/Lifecycle/Tests.antt =====
-- Runs of the limiter's goroutine with callers of Stop.
use go_skeleton.Base.{◌≡◌, refl, inr}
use go_skeleton.Middleware.RateLimit.Lifecycle.{
  closing, panicked, System, started, found_open, close_stop, close_twice, by_first, by_second, Run,
  here, next, SerialRun, begin, extend,
}
use go_skeleton.Middleware.RateLimit.Lifecycle.Stopping.{Stops, SerialRun-Stops}

abbrev stopping : System
stopping = record started { first = closing }

enters : SerialRun stopping
enters = extend begin (by_first (found_open refl)) (inr refl)

SerialRun-Stops_example : Stops stopping
SerialRun-Stops_example = SerialRun-Stops enters

-- Two calls at once: both find `stop` open, and the second close of it panics.
overlap_panics : (s : System) × Run started s × (s.second ≡ panicked)
overlap_panics = (
  _,
  next
      (next (next (next here (by_first (found_open refl))) (by_second (found_open refl)))
        (by_first (close_stop refl)))
      (by_second (close_twice refl)),
  refl,
)
