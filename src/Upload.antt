-- ===== src/Upload.antt =====
-- crates/wiretap-backend/src/archive.rs: an archive that is uploaded for import.
pub mod Reader
pub mod Coming
pub mod Fetching
pub mod Filling
pub mod Sections
pub mod Load
pub mod Copying
pub mod Loaded
