-- ===== src/Cidr.antt =====
-- crates/wiretap-server/src/cidr.rs: the ranges that may use the GVRET listener.
pub mod Range
pub mod Contains
