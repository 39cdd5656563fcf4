-- ===== src/Scripts.antt =====
-- scripts/: the checks that the repository runs on its own sources.
pub mod GoFiles
pub mod Architecture
pub mod Endpoint
pub mod Drift
pub mod Upgrade
mod Tests
