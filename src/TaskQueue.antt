-- ===== src/TaskQueue.antt =====
-- internal/taskqueue/taskqueue.go: the queue that services enqueue to. asynq's client is not part of the
-- repository: what it answers, and when, are arguments.
mod Tests
use go_skeleton.Base.{
  ℕ, ◌≤◌, ◌<◌, String, ◌≡◌, ◌≢◌, ◌⊎◌, inl, inr, refl, sym, ap, ◌∙◌, Bool, true, false, Option, none,
  some, Result, ok, err, if◌then◌else◌, leb, ltb, arith, Bool-cases,
}
use Prim.Native.Nat.{max}
use go_skeleton.Model.{Time}

pub data QueueError : Type 0 where
  queue_unavailable nil_task context_ended : QueueError
  from_client : String → QueueError

-- NewQueue, Available: whether there is a client.
unfoldable pub available : Bool → Bool
available client = client

module _ {I S : Type 0} where
  abbrev pub passed : Result String I × S → Result QueueError I × S
  passed (ok info, s) = (ok info, s)
  passed (err message, s) = (err (from_client message), s)

module _ {T I S : Type 0} where
  abbrev pub enqueue_some : Option T → (T → S → Result String I × S) → S → Result QueueError I × S
  enqueue_some none client s = (err nil_task, s)
  enqueue_some (some t) client s = passed (client t s)

  -- (*Queue).Enqueue; the client's EnqueueContext works on a state of its own.
  unfoldable pub enqueue :
      Bool → Option T → (T → S → Result String I × S) → S → Result QueueError I × S
  enqueue false t client s = (err queue_unavailable, s)
  enqueue true t client s = enqueue_some t client s

-- The answer of the client's PING, with the time at which it comes.
pub record Answer : Type 0 where
  pub at : Time
  pub failure : Option String

abbrev pub result_of : Option String → Result QueueError (Unit {0})
result_of none = ok tt
result_of (some message) = err (from_client message)

-- The select over the answer and the end of the context: the first of the two, and at the same time
-- either, as `prefers_answer` says. None if neither comes.
abbrev pub select :
    Bool → Time → Option Answer → Option Time → Option (Time × Result QueueError (Unit {0}))
select prefers_answer now none none = none
select prefers_answer now none (some end) = some (max now end, err context_ended)
select prefers_answer now (some a) none = some (max now a.at, result_of a.failure)
select prefers_answer now (some a) (some end) =
    let answered_first = if prefers_answer then leb a.at end else ltb a.at end in
    if answered_first
    then some (max now a.at, result_of a.failure)
    else some (max now end, err context_ended)

abbrev pub ended : Time → Option Time → Bool
ended now none = false
ended now (some end) = leb end now

-- (*Queue).Ping, called at `now` with a context that ends at `end`, if at all: when it returns, and what.
unfoldable pub ping :
    Bool → Bool → Time → Option Answer → Option Time → Option (Time × Result QueueError (Unit {0}))
ping prefers_answer false now answer end = some (now, err queue_unavailable)
ping prefers_answer true now answer end =
    if ended now end then some (now, err context_ended) else select prefers_answer now answer end

-- An error, or an answer of Redis without one by the end of the context.
abbrev pub IsPinged : Bool → Time → Option Answer → Result QueueError (Unit {0}) → Type 0
IsPinged client end answer r =
    (r ≢ ok tt)
    ⊎ ((client ≡ true) × (a : Answer) × (answer ≡ some a) × (a.failure ≡ none) × (a.at ≤ end))

-- With a context that ends, Ping returns by the end of the context, or at once if that has come, also
-- where Redis never answers; and it returns nil only if Redis has answered without an error by then.
pub ping_returns :
    (prefers_answer client : Bool) (now end : Time) (answer : Option Answer)
    → (t : Time) × (r : Result QueueError (Unit {0})) × (ping prefers_answer client now answer
          (some end)
        ≡ some (t, r))
      × (t ≤ max now end)
      × IsPinged client end answer r
unfolding ping
ping_returns p false now end answer = (now, err queue_unavailable, refl, omega arith, inl (λ h. cc))
ping_returns p true now end none = elim (Bool-cases (leb end now)) [
  | inl past ↦ (now, err context_ended, rw past refl, omega arith, inl (λ h. cc))
  | inr open_yet ↦ (max now end, err context_ended, rw open_yet refl, omega arith, inl (λ h. cc))
]
ping_returns p true now end (some a) = elim (Bool-cases (leb end now)) [
  | inl past ↦ (now, err context_ended, rw past refl, omega arith, inl (λ h. cc))
  | inr open_yet ↦ elim (Bool-cases (if p then leb a.at end else ltb a.at end)) [
    | inl first ↦
        let early : a.at ≤ end = ground arith in
        (
          max now a.at,
          result_of a.failure,
          rw (open_yet, first) refl,
          omega (arith, early),
          of_result a.failure refl early,
        )
    | inr late ↦
        (max now end, err context_ended, rw (open_yet, late) refl, omega arith, inl (λ h. cc))
  ]
]
  where
    of_result :
        (f : Option String) → a.failure ≡ f → a.at ≤ end → IsPinged true end (some a) (result_of f)
    of_result none e early = inr (refl, a, refl, e, early)
    of_result (some message) e early = inl (λ h. cc)
