-- ===== src/Collections.antt =====
-- The two map types of Rust's standard library that the server uses.
pub mod HashMap
pub mod BTreeMap
