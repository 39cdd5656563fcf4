-- ===== src/Middleware/RateLimit/Lifecycle.antt =====
-- The goroutine and the channels of internal/middleware/rate_limit.go: cleanupLoop, and two callers of
-- Stop, as a step relation. A step is one operation on a channel; a tick stands for the sweep of the
-- visitors as well, which `Middleware.RateLimit.cleanup` models. A closed channel is `true`.
pub mod Stopping
mod Tests
use go_skeleton.Base.{◌≡◌, ◌⊎◌, Bool, true, false}

-- Where cleanupLoop stands: in its select, in the deferred close of `done`, or returned.
pub data Loop : Type 0 where
  selecting leaving exited : Loop

-- Where a caller stands: outside of Stop, before its close of `stop`, before its receive from `done`, or
-- after a panic.
pub data Caller : Type 0 where
  outside closing awaiting panicked : Caller

-- The channels `stop` and `done`, the goroutine, and whether a call of Stop has returned.
pub record Shared : Type 0 where
  pub stop : Bool
  pub done : Bool
  pub loop : Loop
  pub returned : Bool

pub record System : Type 0 where
  pub shared : Shared
  pub first : Caller
  pub second : Caller

-- NewIPRateLimiterPerMinute has started the goroutine.
abbrev pub started : System
started = record {
  shared = record { stop = false; done = false; loop = selecting; returned = false };
  first = outside;
  second = outside;
}

-- What a caller of Stop does next, and where it stands then. Nothing applies to a caller that waits for a
-- channel that is open.
pub data Call (s : Shared) : Caller → Shared → Caller → Type 0 where
  found_closed : s.stop ≡ true → Call s outside s awaiting
  found_open : s.stop ≡ false → Call s outside s closing
  close_stop : s.stop ≡ false → Call s closing (record s { stop = true }) awaiting
  close_twice : s.stop ≡ true → Call s closing s panicked
  received : s.done ≡ true → Call s awaiting (record s { returned = true }) outside

-- What cleanupLoop does next.
pub data Turn (s : Shared) : Shared → Type 0 where
  tick : s.loop ≡ selecting → Turn s s
  stopped : s.loop ≡ selecting → s.stop ≡ true → Turn s (record s { loop = leaving })
  close_done : s.loop ≡ leaving → s.done ≡ false → Turn s (record s { loop = exited; done = true })

pub data Step (s : System) : System → Type 0 where
  by_loop : {t : Shared} → Turn s.shared t → Step s (record s { shared = t })
  by_first :
      {t : Shared} {c : Caller}
      → Call s.shared s.first t c
      → Step s (record s { shared = t; first = c })
  by_second :
      {t : Shared} {c : Caller}
      → Call s.shared s.second t c
      → Step s (record s { shared = t; second = c })

-- At most one caller is inside of Stop.
abbrev pub IsSerial : System → Type 0
IsSerial s = (s.first ≡ outside) ⊎ (s.second ≡ outside)

-- The runs of the system, and those in which the calls of Stop follow each other.
pub data Run (s : System) : System → Type 0 where
  here : Run s s
  next : {t u : System} → Run s t → Step t u → Run s u

pub data SerialRun : System → Type 0 where
  begin : SerialRun started
  extend : {t u : System} → SerialRun t → Step t u → IsSerial u → SerialRun u
