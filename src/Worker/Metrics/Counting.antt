-- ===== src/Worker/Metrics/Counting.antt =====
-- Each run of a task is counted once, by its error and its retries.
use go_skeleton.Base.{
  String, ◌≡◌, ◌≢◌, ◌↔◌, ◌⊎◌, inl, inr, refl, subst, Bool, true, false, ◌||◌, none, some, List, [],
  ◌∷◌, ◌++◌, arith,
}
use go_skeleton.Base.Int.{◌≤ℤ◌}
use go_skeleton.Base.Text.{Bytes}
use go_skeleton.Worker.Metrics.{
  TaskFailure, skip_retry, revoke_task, plain, wrapping, wrapping_both, is_final, TaskStatus,
  succeeded, failed_finally, RetryInfo, task_status, error_status, AsynqTask, Observation, Ended,
  answered, panicking, TaskHandler, seen, metrics_middleware,
}

-- An error that is one of the two of asynq, or wraps one.
pub data IsFinal : TaskFailure → Type 0 where
  skips : IsFinal skip_retry
  revokes : IsFinal revoke_task
  inside : (message : String) (e : TaskFailure) → IsFinal e → IsFinal (wrapping message e)
  first : (message : String) (e f : TaskFailure) → IsFinal e → IsFinal (wrapping_both message e f)
  second : (message : String) (e f : TaskFailure) → IsFinal f → IsFinal (wrapping_both message e f)

is_final_iff : (e : TaskFailure) → (is_final e ≡ true) ↔ IsFinal e
unfolding is_final
is_final_iff skip_retry = (λ h. skips, λ h. refl)
is_final_iff revoke_task = (λ h. revokes, λ h. refl)
is_final_iff (plain message) = (λ h. cc, λ h. elim h [ ])
is_final_iff (wrapping message e) =
    let inner = is_final_iff e in
    (λ h. inside message e (inner.0 h), λ h. elim h [ inside _ _ k ↦ inner.1 k ])
is_final_iff (wrapping_both message e f) =
    let left = is_final_iff e in
    let right = is_final_iff f in
    (
      λ h. elim (either (is_final e) (is_final f) h) [
        | inl p ↦ first message e f (left.0 p)
        | inr q ↦ second message e f (right.0 q)
      ],
      λ h. elim h [
        | first _ _ _ k ↦ ground (arith, left.1 k)
        | second _ _ _ k ↦ ground (arith, right.1 k)
      ],
    )
  where
    either : (b c : Bool) → (b || c) ≡ true → (b ≡ true) ⊎ (c ≡ true)
    either true c h = inl refl
    either false c h = inr h

-- The error is or wraps one of asynq's two, or the recorded retries have reached their maximum.
pub record IsLastFailure (info : RetryInfo) (e : TaskFailure) : Type 0 where
  pub reason : IsFinal e ⊎ ((info.known ≡ true) × (info.max_retry ≤ℤ info.retried))

-- What the status says of the end of a run.
pub record IsCounted (end : Ended) (info : RetryInfo) (status : TaskStatus) : Type 0 where
  pub success : (status ≡ succeeded) ↔ (end ≡ answered none)
  pub failure :
      (status ≡ failed_finally) ↔ ((e : TaskFailure) × (seen end ≡ some e) × IsLastFailure info e)

task_status_iff :
    (e : TaskFailure) (info : RetryInfo)
    → (task_status (some e) info ≡ failed_finally) ↔ IsLastFailure info e
unfolding task_status
task_status_iff e info =
    let final = is_final_iff e in
    (
      λ h. record { reason = reason_of (is_final e) final.0 h },
      λ g. elim g.reason [ inl k ↦ ground (arith, final.1 k) | inr (k, l) ↦ ground arith ],
    )
  where
    reason_of :
        (b : Bool)
        → (b ≡ true → IsFinal e)
        → error_status b info ≡ failed_finally
        → IsFinal e ⊎ ((info.known ≡ true) × (info.max_retry ≤ℤ info.retried))
    reason_of true f h = inl (f refl)
    reason_of false f h = inr (ground arith, ground arith)

not_succeeded : (e : TaskFailure) (info : RetryInfo) → task_status (some e) info ≢ succeeded
unfolding task_status
not_succeeded e info = ground arith

task_status-IsCounted :
    (end : Ended) (info : RetryInfo) → IsCounted end info (task_status (seen end) info)
unfolding task_status
task_status-IsCounted (answered none) info = record {
  success = (λ h. refl, λ h. refl);
  failure = (λ h. cc, λ (e, p, g). cc);
}
task_status-IsCounted (answered (some e)) info = record {
  success = (λ h. absurd (not_succeeded e info h), λ h. cc);
  failure = (
    λ h. (e, refl, (task_status_iff e info).0 h),
    λ (f, p, g). (task_status_iff e info).1 (subst (IsLastFailure info) (of_some p) g),
  );
}
  where
    of_some : {f : TaskFailure} → some e ≡ some f → f ≡ e
    of_some p = cc
task_status-IsCounted (panicking r) info = record {
  success = (λ h. absurd (not_succeeded (plain r) info h), λ h. cc);
  failure = (
    λ h. (plain r, refl, (task_status_iff (plain r) info).0 h),
    λ (f, p, g). (task_status_iff (plain r) info).1 (subst (IsLastFailure info) (of_some p) g),
  );
}
  where
    of_some : {f : TaskFailure} → some (plain r) ≡ some f → f ≡ plain r
    of_some p = cc

module _ {S : Type 0} where
  -- Each run of a task is counted exactly once under the task's label, also where the handler panics, and
  -- ends as the handler ended, with the state that the handler left. The status is success exactly when the
  -- handler returned no error, and failure exactly when it panicked or returned an error and either that
  -- error is or wraps SkipRetry or RevokeTask, or the number of retries is known and has reached its
  -- maximum. What asynq does with the task afterwards is not part of this.
  pub metrics_middleware_lem :
      (label : AsynqTask → Bytes) (next : TaskHandler S) (info : RetryInfo) (t : AsynqTask)
      (before : List Observation) (s : S)
      → (status : TaskStatus) × (metrics_middleware true label next info t (before, s) ≡ (
        (next info t s).0,
        (before ++ record { label = label t; status = status } ∷ [], (next info t s).1),
      ))
        × IsCounted (next info t s).0 info status
  unfolding metrics_middleware
  metrics_middleware_lem label next info t before s = (
    task_status (seen (next info t s).0) info,
    refl,
    task_status-IsCounted (next info t s).0 info,
  )
