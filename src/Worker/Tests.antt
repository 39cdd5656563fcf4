-- ===== src/Worker/Tests.antt =====
-- Delays of a worker with the base of five seconds and the limit of an hour.
use go_skeleton.Base.{ℕ, ◌+◌, ◌*◌, ◌^◌, ◌≡◌, refl, String, Result, ok, []}
use go_skeleton.Base.Int.{pos, second, signed64}
use go_skeleton.Worker.Retry.{compute_retry_delay, mul64}
use go_skeleton.Worker.Tasks.{handle_example_task}
use go_skeleton.Task.{ExamplePayload, contains, check_header}

third : compute_retry_delay (pos 3) (pos (5 * second)) (pos (3600 * second)) ≡ pos (40 * second)
unfolding compute_retry_delay mul64 signed64
third = refl

-- A product that wraps round to a positive number passes the test for an overflow: the delay of
-- attempt 29 is below the base.
wrapped : compute_retry_delay (pos 29) (pos (2 ^ 35 + 1)) (pos (3600 * second)) ≡ pos (2 ^ 29)
unfolding compute_retry_delay mul64 signed64
wrapped = refl

abbrev payload : ExamplePayload
payload = record { header = record { version = pos 1; trace_id = [] }; name = []; task_key = [] }

-- A processor that counts.
abbrev counting : ExamplePayload → ℕ → Result String (Unit {0}) × ℕ
counting p n = (ok tt, n + 1)

counted : handle_example_task counting (ok payload) 4 ≡ (ok tt, 5)
unfolding handle_example_task check_header contains
counted = refl
