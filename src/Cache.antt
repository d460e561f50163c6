-- ===== src/Cache.antt =====
-- crates/wiretap-server/src/cache.rs: where frames wait when the gateway is not there.
pub mod Rows
pub mod RowsBack
pub mod Store
pub mod Contents
pub mod Counted
