-- ===== src/Service/Queueing.antt =====
-- EnqueueTask of internal/service/example.go. What json.Marshal gives for a payload, and the queue's
-- Enqueue on a state of its own, are arguments; a queue is nil or says whether it is available.
use go_skeleton.Base.{
  String, Bool, true, false, not, Option, none, some, [], ◌∷◌, Result, ok, err, if◌then◌else◌, ◌≡◌,
  refl, sym, ap,
}
use go_skeleton.Base.Text.{Bytes}
use go_skeleton.Errcode
use go_skeleton.Errcode.{Error}
use go_skeleton.Wire.{EnqueueExampleTaskRes}
use go_skeleton.Task.{ExamplePayload, new_example_payload}

module _ {Q : Type 0} (marshal : ExamplePayload → Result String Bytes)
    (enqueue : Bytes → Q → Result String (Unit {0}) × Q) where
  abbrev pub enqueued_answer : Result String (Unit {0}) × Q → Result Error EnqueueExampleTaskRes × Q
  enqueued_answer (ok info, q) = (ok (record { queued = true }), q)
  enqueued_answer (err message, q) = (err Errcode.queue_error, q)

  abbrev pub enqueue_marshalled : Result String Bytes → Q → Result Error EnqueueExampleTaskRes × Q
  enqueue_marshalled (err message) q = (err Errcode.queue_error, q)
  enqueue_marshalled (ok payload) q = enqueued_answer (enqueue payload q)

  -- `uuid` is the task key that NewExampleTask makes.
  unfoldable pub enqueue_task :
      Option Bool → Bytes → Bytes → Bytes → Q → Result Error EnqueueExampleTaskRes × Q
  enqueue_task none uuid name trace_id q = (err Errcode.queue_unavailable, q)
  enqueue_task (some available) uuid name trace_id q =
      if not available
      then (err Errcode.queue_unavailable, q)
      else enqueue_marshalled (marshal (new_example_payload uuid name (trace_id ∷ []))) q

  -- The answer says "queued" only if the queue was there and took the task: the payload of the
  -- requested name, with the new key and the trace id of the request.
  pub enqueue_task_ok :
      (queue : Option Bool) (uuid name trace_id : Bytes) (q q' : Q) (res : EnqueueExampleTaskRes)
      → enqueue_task queue uuid name trace_id q ≡ (ok res, q')
      → (payload : Bytes) × (queue ≡ some true)
        × (res.queued ≡ true)
        × (marshal (new_example_payload uuid name (trace_id ∷ [])) ≡ ok payload)
        × (enqueue payload q ≡ (ok tt, q'))
  unfolding enqueue_task
  enqueue_task_ok none uuid name trace_id q q' res h = cc
  enqueue_task_ok (some false) uuid name trace_id q q' res h = cc
  enqueue_task_ok (some true) uuid name trace_id q q' res h =
      of_marshalled (marshal (new_example_payload uuid name (trace_id ∷ []))) refl h
    where
      of_enqueued :
          (r : Result String (Unit {0}) × Q)
          → enqueued_answer r ≡ (ok res, q')
          → (res.queued ≡ true) × (r ≡ (ok tt, q'))
      of_enqueued (ok info, q'') e =
          let same : record { queued = true } ≡ res = cc in
          (ap (λ (r : EnqueueExampleTaskRes). r.queued) (sym same), cc)
      of_enqueued (err message, q'') e = cc

      of_marshalled :
          (m : Result String Bytes)
          → marshal (new_example_payload uuid name (trace_id ∷ [])) ≡ m
          → enqueue_marshalled m q ≡ (ok res, q')
          → (payload : Bytes) × (some true ≡ some true)
            × (res.queued ≡ true)
            × (marshal (new_example_payload uuid name (trace_id ∷ [])) ≡ ok payload)
            × (enqueue payload q ≡ (ok tt, q'))
      of_marshalled (err message) e k = cc
      of_marshalled (ok payload) e k =
          let (queued, taken) = of_enqueued (enqueue payload q) k in
          (payload, refl, queued, e, taken)
