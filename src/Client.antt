-- ===== src/Client.antt =====
-- crates/hirsel-client-core/src: the Rust core of the native clients.
pub mod Entry
pub mod Store
pub mod Inner
pub mod Dispatch
pub mod Commands
pub mod Handshake
pub mod Flush
pub mod Session
pub mod WellFormed
pub mod Progress
pub mod Delivery
pub mod Streams
pub mod Sending
mod Examples
pub mod Reconnect
pub mod Loop
pub mod Timeline
pub mod Snapshots
pub mod Silence
