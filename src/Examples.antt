-- ===== src/Examples.antt =====
-- Concrete parts, and the theorems applied at concrete inputs.
pub mod Parts
pub mod Frames
pub mod Tables
mod Archives
mod Caches
mod Wires
mod Gateways
mod Ranges
mod Devices
pub mod Clusters
pub mod Machines
mod Ingests
mod Stores
mod Listeners
mod Uploads
