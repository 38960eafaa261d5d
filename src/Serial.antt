-- ===== src/Serial.antt =====
-- boardswarm/src/serial/mod.rs: a serial port as a console.
pub mod Port
pub mod Readers
mod Examples
