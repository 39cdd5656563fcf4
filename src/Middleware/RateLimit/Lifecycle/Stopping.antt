-- ===== src/Middleware/RateLimit/Lifecycle/Stopping.antt =====
-- Stop of internal/middleware/rate_limit.go, called once or again after it has returned, as
-- (*Server).Shutdown and (*Server).Close do.
use go_skeleton.Base.{◌≡◌, ◌≢◌, ◌∙◌, refl, sym, subst, true, false, ◌⊎◌, inl, inr}
use go_skeleton.Middleware.RateLimit.Lifecycle.{
  Loop, selecting, leaving, exited, Caller, outside, closing, awaiting, panicked, Shared, System,
  Call, found_closed, found_open, close_stop, close_twice, received, Turn, tick, stopped,
  close_done, Step, by_loop, by_first, by_second, IsSerial, Run, here, next, SerialRun, begin,
  extend,
}

abbrev CallerOk : Shared → Caller → Type 0
CallerOk s outside = Unit
CallerOk s closing = s.stop ≡ false
CallerOk s awaiting = s.stop ≡ true
CallerOk s panicked = true ≡ false

abbrev LoopOk : Shared → Loop → Type 0
LoopOk s selecting = (s.done ≡ false) × (s.returned ≡ false)
LoopOk s leaving = (s.stop ≡ true) × (s.done ≡ false) × (s.returned ≡ false)
LoopOk s exited = (s.stop ≡ true) × (s.done ≡ true)

abbrev Inv : System → Type 0
Inv s = CallerOk s.shared s.first × CallerOk s.shared s.second × LoopOk s.shared s.shared.loop

stop_kept : {s t : Shared} → Turn s t → t.stop ≡ s.stop
stop_kept (tick e) = refl
stop_kept (stopped e f) = refl
stop_kept (close_done e f) = refl

-- A caller relies on the channel `stop` alone.
CallerOk-move : (s t : Shared) (c : Caller) → t.stop ≡ s.stop → CallerOk s c → CallerOk t c
CallerOk-move s t outside e h = tt
CallerOk-move s t closing e h = e ∙ h
CallerOk-move s t awaiting e h = e ∙ h
CallerOk-move s t panicked e h = h

LoopOk-Turn : {s t : Shared} → Turn s t → LoopOk s s.loop → LoopOk t t.loop
LoopOk-Turn (tick e) h = h
LoopOk-Turn {s = s} (stopped e f) h =
    let (not_done, not_returned) = subst (LoopOk s) e h in (f, not_done, not_returned)
LoopOk-Turn {s = s} (close_done e f) h = ((subst (LoopOk s) e h).0, refl)

LoopOk-close : (s : Shared) (l : Loop) → LoopOk s l → LoopOk (record s { stop = true }) l
LoopOk-close s selecting h = h
LoopOk-close s leaving (_, h, k) = (refl, h, k)
LoopOk-close s exited (_, h) = (refl, h)

LoopOk-return :
    (s : Shared) (l : Loop) → s.done ≡ true → LoopOk s l → LoopOk (record s { returned = true }) l
LoopOk-return s selecting e (not_done, _) = cc
LoopOk-return s leaving e (_, not_done, _) = cc
LoopOk-return s exited e h = h

call-LoopOk : {s t : Shared} {c d : Caller} → Call s c t d → LoopOk s s.loop → LoopOk t t.loop
call-LoopOk (found_closed e) h = h
call-LoopOk (found_open e) h = h
call-LoopOk {s = s} (close_stop e) h = LoopOk-close s s.loop h
call-LoopOk (close_twice e) h = h
call-LoopOk {s = s} (received e) h = LoopOk-return s s.loop e h

call-CallerOk : {s t : Shared} {c d : Caller} → Call s c t d → CallerOk s c → CallerOk t d
call-CallerOk (found_closed e) h = e
call-CallerOk (found_open e) h = e
call-CallerOk (close_stop e) h = refl
call-CallerOk (close_twice e) h = cc
call-CallerOk (received e) h = tt

-- Of two callers, one of them outside, a step of the first keeps what the second relies on.
call_other :
    {s t : Shared} {c d : Caller} (o : Caller)
    → Call s c t d
    → (d ≡ outside) ⊎ (o ≡ outside)
    → CallerOk s o
    → CallerOk t o
call_other o (found_closed e) a h = h
call_other o (found_open e) a h = h
call_other o (close_stop e) (inl f) h = cc
call_other {t = t} o (close_stop e) (inr f) h = subst (CallerOk t) (sym f) tt
call_other o (close_twice e) a h = h
call_other {s = s} {t = t} o (received e) a h = CallerOk-move s t o refl h

swap : {A B : Type 0} → A ⊎ B → B ⊎ A
swap (inl a) = inr a
swap (inr b) = inl b

Step-Inv : {s t : System} → Step s t → IsSerial t → Inv s → Inv t
Step-Inv {s = s} {t = t} (by_loop r) a (h, k, l) = (
  CallerOk-move s.shared t.shared s.first (stop_kept r) h,
  CallerOk-move s.shared t.shared s.second (stop_kept r) k,
  LoopOk-Turn r l,
)
Step-Inv {s = s} (by_first c) a (h, k, l) =
    (call-CallerOk c h, call_other s.second c a k, call-LoopOk c l)
Step-Inv {s = s} (by_second c) a (h, k, l) =
    (call_other s.first c (swap a) h, call-CallerOk c k, call-LoopOk c l)

SerialRun-Inv : {s : System} → SerialRun s → Inv s
SerialRun-Inv begin = (tt, tt, (refl, refl))
SerialRun-Inv (extend r st a) = Step-Inv st a (SerialRun-Inv r)

Run-append : {s t u : System} → Run s t → Run t u → Run s u
Run-append r here = r
Run-append r (next q st) = next (Run-append r q) st

-- Once `stop` is closed, the goroutine ends and closes `done`, whatever the callers are.
loop_ends :
    (m : Shared) (l : Loop) (a b : Caller)
    → m.loop ≡ l
    → m.stop ≡ true
    → LoopOk m l
    → (n : Shared) × (n.done ≡ true)
      × Run
          (record { shared = m; first = a; second = b })
          (record { shared = n; first = a; second = b })
loop_ends m exited a b e h (_, k) = (m, k, here)
loop_ends m leaving a b e h (_, k, _) =
    (record m { loop = exited; done = true }, refl, next here (by_loop (close_done e k)))
loop_ends m selecting a b e h (k, _) = (
  record m { loop = exited; done = true },
  refl,
  next (next here (by_loop (stopped e h))) (by_loop (close_done refl k)),
)

wait_first :
    (m : Shared) (b : Caller)
    → m.stop ≡ true
    → LoopOk m m.loop
    → (n : Shared) × Run
        (record { shared = m; first = awaiting; second = b })
        (record { shared = n; first = outside; second = b })
wait_first m b h k =
    let (n, e, r) = loop_ends m m.loop awaiting b refl h k in
    (record n { returned = true }, next r (by_first (received e)))

wait_second :
    (m : Shared) (a : Caller)
    → m.stop ≡ true
    → LoopOk m m.loop
    → (n : Shared) × Run
        (record { shared = m; first = a; second = awaiting })
        (record { shared = n; first = a; second = outside })
wait_second m a h k =
    let (n, e, r) = loop_ends m m.loop a awaiting refl h k in
    (record n { returned = true }, next r (by_second (received e)))

first_returns :
    (m : Shared) (a b : Caller)
    → CallerOk m a
    → LoopOk m m.loop
    → (n : Shared) × Run
        (record { shared = m; first = a; second = b })
        (record { shared = n; first = outside; second = b })
first_returns m outside b h k = (m, here)
first_returns m closing b h k =
    let (n, r) = wait_first (record m { stop = true }) b refl (LoopOk-close m m.loop k) in
    (n, Run-append (next here (by_first (close_stop h))) r)
first_returns m awaiting b h k = wait_first m b h k
first_returns m panicked b h k = cc

second_returns :
    (m : Shared) (a b : Caller)
    → CallerOk m b
    → LoopOk m m.loop
    → (n : Shared) × Run
        (record { shared = m; first = a; second = b })
        (record { shared = n; first = a; second = outside })
second_returns m a outside h k = (m, here)
second_returns m a closing h k =
    let (n, r) = wait_second (record m { stop = true }) a refl (LoopOk-close m m.loop k) in
    (n, Run-append (next here (by_second (close_stop h))) r)
second_returns m a awaiting h k = wait_second m a h k
second_returns m a panicked h k = cc

-- What holds in a state of the system.
pub record Stops (s : System) : Type 0 where
  pub first_unhurt : s.first ≢ panicked
  pub second_unhurt : s.second ≢ panicked
  pub closed_once : (s.shared.loop ≢ leaving) ⊎ (s.shared.done ≡ false)
  pub waited : (s.shared.returned ≡ false) ⊎ (s.shared.loop ≡ exited)
  pub returns : (n : Shared) × Run s (record { shared = n; first = outside; second = outside })

unhurt : (s : Shared) (c : Caller) → CallerOk s c → c ≢ panicked
unhurt s outside h = λ e. cc
unhurt s closing h = λ e. cc
unhurt s awaiting h = λ e. cc
unhurt s panicked h = cc

loop_once :
    (s : Shared) (l : Loop)
    → LoopOk s l
    → ((l ≢ leaving) ⊎ (s.done ≡ false)) × ((s.returned ≡ false) ⊎ (l ≡ exited))
loop_once s selecting (h, k) = (inr h, inl k)
loop_once s leaving (_, h, k) = (inr h, inl k)
loop_once s exited h = (inl (λ e. cc), inr refl)

serial_returns :
    (m : Shared) (a b : Caller)
    → (a ≡ outside) ⊎ (b ≡ outside)
    → CallerOk m a
    → CallerOk m b
    → LoopOk m m.loop
    → (n : Shared) × Run
        (record { shared = m; first = a; second = b })
        (record { shared = n; first = outside; second = outside })
serial_returns m a b (inl e) h k l = rw e (second_returns m outside b k l)
serial_returns m a b (inr e) h k l = rw e (first_returns m a outside h l)

SerialRun-IsSerial : {s : System} → SerialRun s → IsSerial s
SerialRun-IsSerial begin = inl refl
SerialRun-IsSerial (extend r st a) = a

-- In every state that the goroutine and calls of Stop that do not overlap lead to: no channel has been
-- closed twice and no close is about to be the second one of `done`; a call has returned only if the
-- goroutine has ended; and the calls in progress can return, by a run of steps that are enabled.
pub SerialRun-Stops : {s : System} → SerialRun s → Stops s
SerialRun-Stops {s = s} r =
    let (h, k, l) = SerialRun-Inv r in
    let (once, waited) = loop_once s.shared s.shared.loop l in
    record {
      first_unhurt = unhurt s.shared s.first h;
      second_unhurt = unhurt s.shared s.second k;
      closed_once = once;
      waited = waited;
      returns = serial_returns s.shared s.first s.second (SerialRun-IsSerial r) h k l;
    }
