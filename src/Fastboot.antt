-- ===== src/Fastboot.antt =====
-- boardswarm/src/fastboot.rs: data buffered for a fastboot device, its encoding as an Android
-- sparse image, and the volume target that writes through it.
pub mod Data
pub mod Bounds
pub mod Target
pub mod Write
pub mod Placement
pub mod Split
pub mod Encode
pub mod Image
pub mod Consistent
pub mod Announced
pub mod Aligned
pub mod Volume
pub mod Targets
mod Examples
