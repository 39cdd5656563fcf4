-- ===== src/Worker.antt =====
-- internal/worker: running the tasks of the queue.
pub mod Retry
pub mod Backoff
pub mod Trace
pub mod Tasks
pub mod Metrics
pub mod Health
pub mod Assembly
pub mod Lifecycle
mod Tests
mod ProcessTests
