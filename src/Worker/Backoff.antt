-- ===== src/Worker/Backoff.antt =====
-- NewServer of internal/worker/server.go: the delays that a worker asks for, whatever it is configured with.
use go_skeleton.Base.{ℕ, ◌*◌, if◌then◌else◌, arith}
use go_skeleton.Base.Int.{ℤ, pos, leb_ℤ, ◌<ℤ◌, ◌≤ℤ◌, second}
use go_skeleton.Base.Dict.{Dict}
use go_skeleton.Config.{WorkerConfig}
use go_skeleton.Worker.Retry.{compute_retry_delay, compute_retry_delay_bounded}

-- worker.ServerConfig, as NewWorker fills it.
pub record ServerConfig : Type 0 where
  pub server_concurrency : ℤ
  pub server_queues : Dict ℤ
  pub base_delay : ℤ
  pub max_delay : ℤ

unfoldable pub server_config : WorkerConfig → ServerConfig
server_config cfg = record {
  server_concurrency = cfg.concurrency;
  server_queues = cfg.queues;
  base_delay = cfg.retry_base_delay;
  max_delay = cfg.retry_max_delay;
}

abbrev pub delay_or : ℤ → ℕ → ℤ
delay_or delay default = if leb_ℤ delay (pos 0) then pos default else delay

-- RetryDelayFunc of the n-th attempt.
unfoldable pub retry_delay : ServerConfig → ℤ → ℤ
retry_delay sc n =
    compute_retry_delay n (delay_or sc.base_delay (5 * second))
      (delay_or sc.max_delay (3600 * second))

delay_or_positive : (d : ℤ) (default : ℕ) → pos 0 <ℤ pos default → pos 0 <ℤ delay_or d default
delay_or_positive d default h = ground arith

-- The delay before each attempt is positive, and at most the configured maximum, or an hour where that is
-- not positive, whatever the attempt, the base and the maximum are.
pub retry_delay_bounded :
    (cfg : WorkerConfig) (n : ℤ)
    → (pos 0 <ℤ retry_delay (server_config cfg) n)
      × (retry_delay (server_config cfg) n ≤ℤ delay_or cfg.retry_max_delay (3600 * second))
unfolding retry_delay server_config
retry_delay_bounded cfg n =
    compute_retry_delay_bounded n (delay_or cfg.retry_base_delay (5 * second))
      (delay_or cfg.retry_max_delay (3600 * second))
      (delay_or_positive cfg.retry_max_delay (3600 * second) (omega arith))
