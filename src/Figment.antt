-- ===== src/Figment.antt =====
-- contenders/rust/figment-engine/src/engine: the archive planner of one multipart upload.
pub mod ZipFormat
pub mod Assemble
pub mod Crc
pub mod Plan
mod Tests
