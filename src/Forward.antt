-- ===== src/Forward.antt =====
-- crates/wiretap-server/src/forward.rs: batches to the gateway.
pub mod Interface
pub mod Receive
pub mod Session
pub mod Chunks
pub mod Enough
pub mod Fate
pub mod Delivered
pub mod Fallback
