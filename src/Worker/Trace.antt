-- ===== src/Worker/Trace.antt =====
-- taskLogContext of internal/worker/server.go, with NewTraceID and EnsureTraceID of pkg/log/logger.go: the
-- trace id under which a task runs. A context is here its trace id, empty for none.
use go_skeleton.Base.{
  ◌≡◌, ◌≢◌, ◌⊎◌, inl, inr, refl, ap, true, false, not, List, [], ◌∷◌, ◌++◌, if◌then◌else◌, All,
  All-append, arith, Bool-cases,
}
use go_skeleton.Base.Text.{Bytes, codes, is_empty, trim, join}
use go_skeleton.Base.Text.Trim.{IsVisible, trim_idem, trim_of_visible}
use go_skeleton.Config.Env.{keep_parts}
use go_skeleton.Task.{new_example_payload, new_header}
use go_skeleton.Task.Payload.{
  Json, marshal_payload, trace_id_from_payload, trace_id_from_payload-marshal_payload,
}

-- The parts that are not blank, trimmed, with colons between them.
unfoldable pub new_trace_id : List Bytes → Bytes
unfolding keep_parts
new_trace_id parts = join (codes ":") (keep_parts parts)

unfoldable pub ensure_trace_id : Bytes → Bytes → Bytes
ensure_trace_id context trace_id =
    let trimmed = trim trace_id in
    if not (is_empty context) then context else if is_empty trimmed then context else trimmed

pub data TraceSource : Type 0 where
  from_request from_asynq_task : TraceSource

unfoldable pub task_log_context : Bytes → Bytes → Bytes → Bytes × TraceSource
unfolding new_trace_id ensure_trace_id
task_log_context context payload_trace task_id =
    if is_empty payload_trace
    then (ensure_trace_id context (new_trace_id (codes "asynq" ∷ task_id ∷ [])), from_asynq_task)
    else (ensure_trace_id context payload_trace, from_request)

-- The trace id of a task that a request with the trace id `trace` has put into the queue, as JSON.
unfoldable pub task_trace : Json → Bytes → Bytes → Bytes → Bytes → Bytes × TraceSource
unfolding task_log_context new_example_payload new_header
task_trace j uuid name trace task_id =
    task_log_context []
      (trace_id_from_payload j (marshal_payload j (new_example_payload uuid name (trace ∷ []))))
      task_id

asynq-IsVisible : All IsVisible (codes "asynq:")
asynq-IsVisible = omega arith

abbrev pub after_asynq : Bytes → Bytes
after_asynq task_id = codes "asynq:" ++ task_id

kept_parts :
    (task_id : Bytes)
    → All IsVisible task_id
    → task_id ≢ []
    → keep_parts (codes "asynq" ∷ task_id ∷ []) ≡ codes "asynq" ∷ task_id ∷ []
unfolding keep_parts
kept_parts [] v n = absurd (n refl)
kept_parts (c ∷ s) v n = rw (trim_of_visible (c ∷ s) v) (unfold trim in refl)

joined : (task_id : Bytes) → join (codes ":") (codes "asynq" ∷ task_id ∷ []) ≡ after_asynq task_id
unfolding join
joined task_id = refl

made_trace :
    (task_id : Bytes)
    → All IsVisible task_id
    → task_id ≢ []
    → ensure_trace_id [] (new_trace_id (codes "asynq" ∷ task_id ∷ [])) ≡ after_asynq task_id
unfolding ensure_trace_id new_trace_id
made_trace task_id v n =
    let whole : trim (after_asynq task_id) ≡ after_asynq task_id =
      trim_of_visible (after_asynq task_id)
        (All-append IsVisible (codes "asynq:") task_id asynq-IsVisible v) in
    rw (kept_parts task_id v n) (rw (joined task_id) (rw whole refl))

module _ (j : Json) (uuid name trace task_id : Bytes)
    (valid : j.to_valid_utf8 (trim trace) ≡ trim trace) where
  found_trace :
      trace_id_from_payload j (marshal_payload j (new_example_payload uuid name (trace ∷ [])))
      ≡ trim trace
  unfolding new_example_payload new_header
  found_trace =
      trace_id_from_payload-marshal_payload j (new_example_payload uuid name (trace ∷ [])) valid

  -- A task that a request with a trace id of valid UTF-8 has put into the queue runs under that id, without
  -- its white space, and says that it is a request's, whatever the id of the task; where the request had
  -- none, it says that it is not a request's.
  pub task_trace_lem :
      ((is_empty (trim trace) ≡ false)
        × (task_trace j uuid name trace task_id ≡ (trim trace, from_request)))
      ⊎ ((is_empty (trim trace) ≡ true)
          × ((task_trace j uuid name trace task_id).1 ≡ from_asynq_task))
  unfolding task_trace task_log_context
  task_trace_lem = rw found_trace (elim (Bool-cases (is_empty (trim trace))) [
    | inl blank ↦ inr (blank, rw blank refl)
    | inr given ↦ inl (given, rw given (ap (λ (t : Bytes). (t, from_request)) (ensured given)))
  ])
    where
      ensured : is_empty (trim trace) ≡ false → ensure_trace_id [] (trim trace) ≡ trim trace
      ensured given = unfold ensure_trace_id in rw (trim_idem trace) (rw given refl)

  -- Where the request had no trace id, the task runs under "asynq:" and its own id, if that is printable.
  task_trace_made :
      is_empty (trim trace) ≡ true
      → All IsVisible task_id
      → task_id ≢ []
      → task_trace j uuid name trace task_id ≡ (after_asynq task_id, from_asynq_task)
  unfolding task_trace task_log_context
  task_trace_made blank v n =
      rw (found_trace, blank) (ap (λ (t : Bytes). (t, from_asynq_task)) (made_trace task_id v n))
