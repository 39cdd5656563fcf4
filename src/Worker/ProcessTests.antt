-- ===== src/Worker/ProcessTests.antt =====
-- Runs of tasks and of worker processes.
use go_skeleton.Base.{
  ◌⊎◌, ℕ, ◌+◌, String, ◌≡◌, ◌↔◌, refl, true, false, none, some, [], ◌∷◌, ◌++◌, Result, ok, err,
  arith, inl,
}
use go_skeleton.Base.Int.{pos}
use go_skeleton.Base.Text.{Bytes, codes, is_empty, trim}
use go_skeleton.Task.{ExamplePayload}
use go_skeleton.Config.{Config, development}
use go_skeleton.Config.Load.{load, read_config}
use go_skeleton.Config.Sample.{minute_only, in_production}
use go_skeleton.Database.{init_pool}
use go_skeleton.Bootstrap.{
  World, Registry, init_worker, probe_dependencies, run_cleanups, new_cache_client,
}
use go_skeleton.Worker.Tasks.{handle_example_task, Processor}
use go_skeleton.Worker.Metrics.{
  TaskFailure, skip_retry, plain, TaskStatus, RetryInfo, AsynqTask, answered, panicking,
  TaskHandler, metrics_middleware, pattern_label,
}
use go_skeleton.Worker.Metrics.Counting.{IsCounted, metrics_middleware_lem, second, skips}
use go_skeleton.Worker.Metrics.Example.{error_of, example_handler, IsLost, example_handler_kept}
use go_skeleton.Base.{◌*◌}
use go_skeleton.Base.Int.{negsuc, second as one_second, ◌≤ℤ◌, ◌<ℤ◌}
use go_skeleton.Config.{WorkerConfig}
use go_skeleton.Worker.Backoff.{retry_delay, server_config, delay_or, retry_delay_bounded}
use go_skeleton.Task.Sample.{json}
use go_skeleton.Worker.Trace.{task_trace, from_request, from_asynq_task, task_trace_lem}
use go_skeleton.Worker.Health.{HealthChecks}
use go_skeleton.Worker.Assembly.{service_processor, noop_processor, new_worker}
use go_skeleton.Worker.Assembly.Production.{new_worker_of_init_worker}
use go_skeleton.Worker.Lifecycle.{run}
use go_skeleton.Worker.Lifecycle.Phases.{Ends, run-Ends}

abbrev info : RetryInfo
info = record { retried = pos 1; max_retry = pos 25; known = true }

abbrev mail : AsynqTask
mail = record { type_name = codes "mail:send"; payload = codes "{" }

-- A handler that counts, and panics.
abbrev panics : TaskHandler ℕ
panics i t n = (panicking "index out of range", n + 1)

abbrev unknown : AsynqTask → Bytes
unknown = pattern_label (λ name. [])

metrics_middleware_lem_example :
    (status : TaskStatus) × (metrics_middleware true unknown panics info mail ([], 3) ≡ (
      panicking "index out of range",
      ([] ++ record { label = codes "unknown"; status = status } ∷ [], 4),
    ))
    × IsCounted (panicking "index out of range") info status
metrics_middleware_lem_example = metrics_middleware_lem unknown panics info mail [] 3

abbrev text_of : String → TaskFailure
text_of message = plain message

abbrev unused : Processor String ℕ
unused payload n = (ok tt, n + 1)

abbrev no_json : Bytes → Result String ExamplePayload
no_json s = err "unexpected end"

abbrev decode_failed : TaskFailure
decode_failed =
    TaskFailure.wrapping_both "unmarshal example payload" (plain "unexpected end") skip_retry

fails : example_handler text_of unused no_json info mail 3 ≡ (answered (some decode_failed), 3)
unfolding example_handler handle_example_task error_of
fails = refl

example_handler_kept_example : IsLost text_of unused (no_json (codes "{")) 3 3
example_handler_kept_example =
    example_handler_kept text_of unused no_json info mail 3 3 decode_failed fails (omega arith)
      (record {
        reason = inl (second "unmarshal example payload" (plain "unexpected end") skip_retry skips);
      })

abbrev redis_only : HealthChecks
redis_only = record { redis = some (ok tt); db = none }

abbrev all_up : World
all_up = record {
  open_database = none;
  ping_database = none;
  ping_cache = none;
  close_failure = λ r. none;
}

abbrev without_dsn : Config
without_dsn =
    let cfg = (load minute_only in_production).0 in
    record cfg { redis = record cfg.redis { addr = codes "redis:6379" } }

abbrev cache_only : Registry
cache_only = record {
  pool = false;
  cache_client = true;
  queue = true;
  queue_inspector = false;
  auth = none;
}

started : (init_worker all_up without_dsn).1 ≡ ok cache_only
unfolding init_worker init_pool probe_dependencies run_cleanups new_cache_client load read_config
    trim
started = refl

new_worker_of_init_worker_example :
    ((new_worker without_dsn cache_only ≡ ok service_processor)
      ↔ (is_empty (trim without_dsn.postgres.dsn) ≡ false))
    × ((new_worker without_dsn cache_only ≡ ok noop_processor)
        ↔ (is_empty (trim without_dsn.postgres.dsn) ≡ true) × (without_dsn.env ≡ development))
new_worker_of_init_worker_example = new_worker_of_init_worker all_up without_dsn cache_only started

run-Ends_example :
    Ends true true (run true true none (some "in use")).0 (run true true none (some "in use")).1
run-Ends_example = run-Ends true true none (some "in use")

-- Neither the base nor the maximum is usable.
abbrev unusable : WorkerConfig
unusable = record (load minute_only in_production).0.worker {
  retry_base_delay = pos 0;
  retry_max_delay = negsuc 0;
}

retry_delay_bounded_example :
    (pos 0 <ℤ retry_delay (server_config unusable) (pos 40))
    × (retry_delay (server_config unusable) (pos 40) ≤ℤ delay_or (negsuc 0) (3600 * one_second))
retry_delay_bounded_example = retry_delay_bounded unusable (pos 40)

task_trace_lem_example :
    ((is_empty (trim (codes " t1")) ≡ false)
      × (task_trace json (codes "k") (codes "a") (codes " t1") (codes "id7")
          ≡ (trim (codes " t1"), from_request)))
    ⊎ ((is_empty (trim (codes " t1")) ≡ true)
        × ((task_trace json (codes "k") (codes "a") (codes " t1") (codes "id7")).1
            ≡ from_asynq_task))
task_trace_lem_example =
    task_trace_lem json (codes "k") (codes "a") (codes " t1") (codes "id7") refl
