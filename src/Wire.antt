-- ===== src/Wire.antt =====
-- crates/wiretap-server/src/wire.rs: a sample on the ingest protocol, in both directions.
pub mod Library
pub mod Records
pub mod RoundTrip
