-- ===== src/Rockusb.antt =====
-- boardswarm/src/rockusb.rs: the volume of a Rockchip device.
pub mod Device
pub mod Targets
pub mod Blob
pub mod Opening
mod Examples
