-- ===== src/Ingest.antt =====
-- crates/wiretap-server/src/ingest.rs: devices that send their frames to this server.
pub mod Session
pub mod Answers
