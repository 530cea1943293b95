-- ===== src/Live.antt =====
-- The live watcher, src/screen2xyz_m2.
pub mod Session
pub mod Status
pub mod Stability
pub mod Journal
pub mod Parsing
pub mod Scheduler
mod Tests
