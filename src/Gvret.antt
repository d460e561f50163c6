-- ===== src/Gvret.antt =====
-- crates/wiretap-server/src/gvret.rs: the live bridge that GVRET clients connect to.
pub mod Listener
pub mod Refused
pub mod Client
pub mod Drained
pub mod Replies
