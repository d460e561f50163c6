-- ===== src/Gateway.antt =====
-- crates/wiretap-backend: the gateway that devices and capture servers send frames to.
pub mod Postgres
pub mod Writer
pub mod Effects
pub mod Buffer
pub mod Landed
pub mod Drain
pub mod Databases
pub mod Writes
pub mod Migrate
pub mod Kept
pub mod Onward
pub mod Stored
pub mod Keys
pub mod Sessions
pub mod Rows
pub mod Interface
pub mod Hello
pub mod Connection
pub mod Serve
pub mod Registry
pub mod Owned
pub mod Clients
pub mod Answers
pub mod Named
pub mod Served
pub mod Gate
pub mod Always
pub mod Lively
pub mod Ended
pub mod Versions
pub mod Offered
