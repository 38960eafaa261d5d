-- ===== src/Cli.antt =====
-- boardswarm-cli: the writer of utils.rs that collects data into large writes.
pub mod BatchWriter
pub mod Delivery
mod Examples
