-- ===== src/JrodonV3.antt =====
-- contenders/rust/jrodon-v3: the archiver that plans a multipart ZIP and executes its part jobs.
pub mod ZipFormat
pub mod Files
pub mod Layout
pub mod PartJob
pub mod Jobs
pub mod Execute
pub mod Resolve
pub mod SharedBuffer
mod Tests
