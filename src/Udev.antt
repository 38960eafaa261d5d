-- ===== src/Udev.antt =====
-- boardswarm/src/udev.rs: the registrations of the items of a udev device, the stream of devices, and
-- the USB interfaces of a device.
pub mod Registrations
pub mod Counting
pub mod Ownership
pub mod Batch
pub mod History
pub mod Races
pub mod Interfaces
pub mod Stream
mod Examples
