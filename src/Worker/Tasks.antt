-- ===== src/Worker/Tasks.antt =====
-- internal/worker/handler.go: what runs when a task is taken from the queue. What json.Unmarshal gives
-- is an argument; a processor works on a state of its own. Logging is left out.
use go_skeleton.Base.{String, true, Option, none, some, ◌≡◌, refl, Result, ok, err, arith}
use go_skeleton.Task.{
  ExamplePayload, UnsupportedPayloadVersion, check_header, current_supported, contains,
}

-- An error for asynq: with SkipRetry, for a version that the worker does not know, or the processor's.
pub data TaskError (E : Type 0) : Type 0 where
  skip_retry : String → TaskError E
  unsupported : UnsupportedPayloadVersion → TaskError E
  processing : E → TaskError E

-- ExampleProcessor
abbrev pub Processor : Type 0 → Type 0 → Type 0
Processor E S = ExamplePayload → S → Result E (Unit {0}) × S

module _ {E S : Type 0} where
  abbrev pub processed : Result E (Unit {0}) × S → Result (TaskError E) (Unit {0}) × S
  processed (ok done, s) = (ok done, s)
  processed (err e, s) = (err (processing e), s)

  abbrev pub if_supported :
      Option UnsupportedPayloadVersion
      → Processor E S
      → ExamplePayload
      → S
      → Result (TaskError E) (Unit {0}) × S
  if_supported (some e) process payload s = (err (unsupported e), s)
  if_supported none process payload s = processed (process payload s)

  unfoldable pub handle_example_task :
      Processor E S → Result String ExamplePayload → S → Result (TaskError E) (Unit {0}) × S
  handle_example_task process (err message) s = (err (skip_retry message), s)
  handle_example_task process (ok payload) s =
      if_supported (check_header payload.header current_supported) process payload s

  -- A task that succeeds was decoded, has a version that the worker supports, and was processed with
  -- success: no task is acknowledged that no processor ran.
  pub handle_example_task_ok :
      (process : Processor E S) (decoded : Result String ExamplePayload) (s s' : S)
      → handle_example_task process decoded s ≡ (ok tt, s')
      → (payload : ExamplePayload) × (decoded ≡ ok payload)
        × (contains current_supported payload.header.version ≡ true)
        × (process payload s ≡ (ok tt, s'))
  unfolding handle_example_task check_header
  handle_example_task_ok process (err message) s s' h = cc
  handle_example_task_ok process (ok payload) s s' h =
      let (fits, done) = supported_of (check_header payload.header current_supported) h in
      (payload, refl, contained fits, done)
    where
      processed_ok : (r : Result E (Unit {0}) × S) → processed r ≡ (ok tt, s') → r ≡ (ok tt, s')
      processed_ok (ok tt', s'') e = cc
      processed_ok (err x, s'') e = cc

      supported_of :
          (o : Option UnsupportedPayloadVersion)
          → if_supported o process payload s ≡ (ok tt, s')
          → (o ≡ none) × (process payload s ≡ (ok tt, s'))
      supported_of (some x) e = cc
      supported_of none e = (refl, processed_ok (process payload s) e)

      contained :
          check_header payload.header current_supported ≡ none
          → contains current_supported payload.header.version ≡ true
      contained e = ground arith
