-- ===== src/Civil.antt =====
-- The Civil Plan Digitizer, src/screen2xyz_civil.
pub mod Vocabulary
pub mod Json
pub mod Model
pub mod Transform
pub mod Ids
pub mod Workflow
pub mod Quality
pub mod Samples
mod Tests
