-- ===== src/Handler.antt =====
-- internal/handler: what the routes run.
pub mod Auth
pub mod Example
pub mod Health
mod Tests
mod ExampleTests
