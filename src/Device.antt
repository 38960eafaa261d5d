-- ===== src/Device.antt =====
-- boardswarm/src/config_device.rs: a device of the configuration, which follows the registries and
-- switches modes.
pub mod Config
pub mod Items
pub mod Following
pub mod Tracking
pub mod Histories
pub mod Resync
pub mod Monitor
pub mod Delivery
pub mod Modes
pub mod Switching
pub mod Watching
pub mod Watchers
pub mod Convergence
pub mod Unseen
mod Examples
