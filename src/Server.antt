-- ===== src/Server.antt =====
-- internal/server.go: the API process.
pub mod Engine
pub mod Process
pub mod Queues
pub mod Routes
mod Tests
mod ProcessTests
