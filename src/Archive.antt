-- ===== src/Archive.antt =====
-- crates/wiretap-server/src/archive.rs: frames on their way to durable storage.
pub mod Interface
pub mod Handle
pub mod Worker
pub mod Run
pub mod Flow
pub mod Receive
pub mod Spill
pub mod Accounting
pub mod Turns
pub mod Balance
pub mod Leaving
pub mod Shutdown
pub mod Order
pub mod Outage
pub mod Delivery
pub mod Redelivery
pub mod Rounds
pub mod Exactly
