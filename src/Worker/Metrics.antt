-- ===== src/Worker/Metrics.antt =====
-- internal/worker/metrics.go: what is counted of each task. A handler of asynq returns an error or nil,
-- or panics; it works on a state of its own. What asynq says of the retries and which pattern its mux
-- matches are arguments. Durations are not modelled.
pub mod Counting
pub mod Example
use go_skeleton.Base.{
  String, Bool, true, false, ◌||◌, ◌&&◌, Option, none, some, List, [], ◌∷◌, ◌++◌, Result, ok, err,
  if◌then◌else◌,
}
use go_skeleton.Base.Int.{ℤ, leb_ℤ}
use go_skeleton.Base.Text.{Bytes, codes, is_empty}

-- An error value, with the two that asynq knows and those that wrap one or two others.
pub data TaskFailure : Type 0 where
  skip_retry revoke_task : TaskFailure
  plain : String → TaskFailure
  wrapping : String → TaskFailure → TaskFailure
  wrapping_both : String → TaskFailure → TaskFailure → TaskFailure

-- errors.Is(err, asynq.SkipRetry) || errors.Is(err, asynq.RevokeTask)
unfoldable pub is_final : TaskFailure → Bool
is_final skip_retry = true
is_final revoke_task = true
is_final (plain message) = false
is_final (wrapping message e) = is_final e
is_final (wrapping_both message e f) = is_final e || is_final f

pub data TaskStatus : Type 0 where
  succeeded failed_finally to_retry : TaskStatus

-- What asynqRetryInfo gives.
pub record RetryInfo : Type 0 where
  pub retried : ℤ
  pub max_retry : ℤ
  pub known : Bool

abbrev pub error_status : Bool → RetryInfo → TaskStatus
error_status final info =
    if final
    then failed_finally
    else if info.known && leb_ℤ info.max_retry info.retried
    then failed_finally
    else to_retry

unfoldable pub task_status : Option TaskFailure → RetryInfo → TaskStatus
unfolding is_final
task_status none info = succeeded
task_status (some e) info = error_status (is_final e) info

-- *asynq.Task
pub record AsynqTask : Type 0 where
  pub type_name : Bytes
  pub payload : Bytes

-- One call of ObserveTask.
pub record Observation : Type 0 where
  pub label : Bytes
  pub status : TaskStatus

-- How a handler ends.
pub data Ended : Type 0 where
  answered : Option TaskFailure → Ended
  panicking : String → Ended

abbrev pub TaskHandler : Type 0 → Type 0
TaskHandler S = RetryInfo → AsynqTask → S → Ended × S

-- The error that the deferred function sees.
abbrev pub seen : Ended → Option TaskFailure
seen (answered e) = e
seen (panicking r) = some (plain r)

-- muxPatternLabel: `pattern` is what mux.Handler matches, empty for none.
abbrev pub pattern_label : (Bytes → Bytes) → AsynqTask → Bytes
pattern_label pattern t =
    if is_empty (pattern t.type_name) then codes "unknown" else pattern t.type_name

module _ {S : Type 0} where
  abbrev pub recorded :
      (AsynqTask → Bytes)
      → RetryInfo
      → AsynqTask
      → List Observation
      → Ended × S
      → Ended × (List Observation × S)
  recorded label info t before (end, s) =
      (end, (before ++ record { label = label t; status = task_status (seen end) info } ∷ [], s))

  abbrev pub unrecorded : List Observation → Ended × S → Ended × (List Observation × S)
  unrecorded before (end, s) = (end, (before, s))

  -- MetricsMiddleware with a label; `observes` where there is an observer.
  unfoldable pub metrics_middleware :
      Bool → (AsynqTask → Bytes) → TaskHandler S → TaskHandler (List Observation × S)
  unfolding task_status
  metrics_middleware true label next info t (before, s) =
      recorded label info t before (next info t s)
  metrics_middleware false label next info t (before, s) = unrecorded before (next info t s)
