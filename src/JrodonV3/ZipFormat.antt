-- ===== src/JrodonV3/ZipFormat.antt =====
-- contenders/rust/jrodon-v3/src/zip_format.rs: the ZIP records.
pub mod Field
pub mod Loc
pub mod Cdfh
pub mod Eocd
