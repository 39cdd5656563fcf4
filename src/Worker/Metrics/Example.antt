-- ===== src/Worker/Metrics/Example.antt =====
-- HandleExampleTask as asynq and the metrics see it.
use go_skeleton.Base.{
  String, ◌≡◌, inl, inr, refl, sym, ap, ◌∙◌, subst, Option, none, some, Result, ok, err, arith,
}
use go_skeleton.Base.Int.{◌<ℤ◌}
use go_skeleton.Base.Text.{Bytes}
use go_skeleton.Task.{ExamplePayload, UnsupportedPayloadVersion, check_header, current_supported}
use go_skeleton.Worker.Tasks.{TaskError, Processor, handle_example_task, if_supported, processed}
use go_skeleton.Worker.Metrics.{
  TaskFailure, plain, wrapping_both, RetryInfo, AsynqTask, Ended, answered, TaskHandler,
}
use go_skeleton.Worker.Metrics.Counting.{IsFinal, IsLastFailure}

module _ {E : Type 0} (cause : E → TaskFailure) where
  -- The errors that HandleExampleTask returns, as error values.
  unfoldable pub error_of : TaskError E → TaskFailure
  error_of (TaskError.skip_retry message) =
      wrapping_both "unmarshal example payload" (plain message) TaskFailure.skip_retry
  error_of (TaskError.unsupported v) = plain "unsupported payload version"
  error_of (TaskError.processing e) = cause e

module _ {E S : Type 0} (cause : E → TaskFailure) where
  abbrev pub end_of : Result (TaskError E) (Unit {0}) × S → Ended × S
  end_of (ok done, s) = (answered none, s)
  end_of (err e, s) = (answered (some (error_of cause e)), s)

  -- The handler that RegisterHandlers puts on the mux; `decode` is json.Unmarshal.
  unfoldable pub example_handler :
      Processor E S → (Bytes → Result String ExamplePayload) → TaskHandler S
  unfolding error_of
  example_handler process decode info t s =
      end_of (handle_example_task process (decode t.payload) s)

  -- Why a task is given up while retries are left.
  pub data IsLost (process : Processor E S) (decoded : Result String ExamplePayload) (s s' : S)
      : Type 0 where
    undecodable : (message : String) → decoded ≡ err message → IsLost process decoded s s'
    refused :
        (payload : ExamplePayload) (e : E)
        → decoded ≡ ok payload
        → process payload s ≡ (err e, s')
        → IsFinal (cause e)
        → IsLost process decoded s s'

  if_supported-IsLost :
      (process : Processor E S) (payload : ExamplePayload) (s s' : S) (e : TaskFailure)
      (o : Option UnsupportedPayloadVersion)
      → end_of (if_supported o process payload s) ≡ (answered (some e), s')
      → IsFinal e
      → IsLost process (ok payload) s s'
  unfolding error_of
  if_supported-IsLost process payload s s' e (some v) h f =
      let same : plain "unsupported payload version" ≡ e = cc in
      elim (subst IsFinal (sym same) f) [ ]
  if_supported-IsLost process payload s s' e none h f = of_result (process payload s) refl h
    where
      of_result :
          (r : Result E (Unit {0}) × S)
          → process payload s ≡ r
          → end_of (processed r) ≡ (answered (some e), s')
          → IsLost process (ok payload) s s'
      of_result (ok done, s'') p h = cc
      of_result (err x, s'') p h =
          let same : cause x ≡ e = cc in
          let state : s'' ≡ s' = ap (λ (q : Ended × S). q.1) h in
          refused payload x refl (p ∙ ap (λ u. (err x, u)) state) (subst IsFinal (sym same) f)

  handle_example_task-IsLost :
      (process : Processor E S) (decoded : Result String ExamplePayload) (s s' : S)
      (e : TaskFailure)
      → end_of (handle_example_task process decoded s) ≡ (answered (some e), s')
      → IsFinal e
      → IsLost process decoded s s'
  unfolding handle_example_task
  handle_example_task-IsLost process (err message) s s' e h f = undecodable message refl
  handle_example_task-IsLost process (ok payload) s s' e h f =
      if_supported-IsLost process payload s s' e (check_header payload.header current_supported) h f

  -- While retries are left, an example task that fails is given up only if its payload is no JSON of the
  -- expected form, or if the processor ran and returned an error that is or wraps one of asynq's two: a
  -- version that the worker does not know is never a reason.
  pub example_handler_kept :
      (process : Processor E S) (decode : Bytes → Result String ExamplePayload) (info : RetryInfo)
      (t : AsynqTask) (s s' : S) (e : TaskFailure)
      → example_handler process decode info t s ≡ (answered (some e), s')
      → info.retried <ℤ info.max_retry
      → IsLastFailure info e
      → IsLost process (decode t.payload) s s'
  unfolding example_handler
  example_handler_kept process decode info t s s' e h left given = elim given.reason [
    | inl f ↦ handle_example_task-IsLost process (decode t.payload) s s' e h f
    | inr (known, used) ↦ absurd (omega (arith, left, used))
  ]
