-- ===== src/Client.antt =====
-- boardswarm-client/src/client.rs: the volume I/O of the client library.
pub mod Requests
pub mod Settling
pub mod ReadWrite
pub mod Polls
pub mod Sending
pub mod Flushing
pub mod Closing
pub mod Reading
pub mod Segments
pub mod Seeking
pub mod Cursor
pub mod Alive
pub mod AlivePushes
pub mod AliveReads
pub mod Outliving
pub mod Batches
pub mod Following
pub mod Histories
pub mod Device
pub mod Waiting
pub mod Naming
mod Examples
mod DeviceExamples
