-- ===== src/Server.antt =====
-- The `Server` of boardswarm/src/main.rs: its registries, and its handlers of lists and single items.
pub mod Items
pub mod Calls
pub mod Stream
pub mod Handlers
pub mod Consoles
pub mod Input
mod Examples
