-- ===== src/Registry.antt =====
-- boardswarm/src/registry.rs: properties and their matching, items, and the registry of them.
pub mod Properties
pub mod Matches
pub mod Store
pub mod Invariant
pub mod History
pub mod Find
pub mod Monitor
mod Examples
