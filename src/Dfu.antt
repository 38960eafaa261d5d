-- ===== src/Dfu.antt =====
-- boardswarm/src/dfu.rs: a device in DFU mode as a volume.
pub mod Device
pub mod Targets
pub mod Listing
pub mod Writes
mod Examples
