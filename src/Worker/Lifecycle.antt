-- ===== src/Worker/Lifecycle.antt =====
-- Run of internal/worker.go: the calls of asynq, of the port with the probes and of `onReady`, in their
-- order. What Start and net.Listen give are arguments; serving and draining are the libraries'.
pub mod Phases
use go_skeleton.Base.{
  ℕ, suc, ◌+◌, String, ◌≡◌, ◌≢◌, ◌⊎◌, inl, inr, refl, ap, Bool, true, false, Option, none, some,
  List, [], ◌∷◌, ◌++◌, if◌then◌else◌, arith,
}

pub data Call : Type 0 where
  start stop shutdown listen serve on_ready context_done shutdown_probes : Call

pub data RunError : Type 0 where
  start_failed listen_failed : String → RunError

-- The end of Run: the context is done, then the two phases of asynq, and the port of the probes last.
abbrev pub draining : Bool → List Call
draining true = context_done ∷ stop ∷ shutdown ∷ shutdown_probes ∷ []
draining false = context_done ∷ stop ∷ shutdown ∷ []

abbrev pub readying : Bool → List Call → List Call
readying true rest = on_ready ∷ rest
readying false rest = rest

abbrev pub listening : Bool → Option String → Bool → List Call × Option RunError
listening false failure ready = (readying ready (draining false), none)
listening true none ready = (listen ∷ serve ∷ readying ready (draining true), none)
listening true (some message) ready = (listen ∷ stop ∷ shutdown ∷ [], some (listen_failed message))

-- (*Worker).Run: `probes` where WORKER_METRICS_ADDR is set, `ready` where onReady is not nil.
unfoldable pub run : Bool → Bool → Option String → Option String → List Call × Option RunError
run probes ready (some message) listen_failure = (start ∷ [], some (start_failed message))
run probes ready none listen_failure =
    let (calls, e) = listening probes listen_failure ready in (start ∷ calls, e)
