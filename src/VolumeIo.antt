-- ===== src/VolumeIo.antt =====
-- boardswarm/src/main.rs: the volume I/O of the server, its targets, requests and replies.
pub mod Replies
pub mod Serve
pub mod Order
mod Examples
