-- ===== src/Remote.antt =====
-- boardswarm/src/boardswarm_provider: the items of another server, registered here, and its devices.
pub mod Provider
pub mod Duplicates
pub mod Device
pub mod Mappings
pub mod Shown
pub mod Ending
pub mod Mirror
mod Examples
mod MirrorExamples
