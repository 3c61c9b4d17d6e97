-- ===== src/Proto.antt =====
-- crates/hirsel-proto/src: the data that the host and its clients exchange.
-- A JSON value stands as its serialised text, an instant as its RFC 3339 text: the modelled code
-- stores and compares both, and computes with neither.
pub mod Icons
mod Chats
mod Turns
mod Threads
mod Frames
pub use Icons.*
pub use Chats.*
pub use Turns.*
unfoldable pub use Threads.*
pub use Frames.*
