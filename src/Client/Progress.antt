-- ===== src/Client/Progress.antt =====
-- What a client has once learnt, later frames do not undo
-- (crates/hirsel-client-core/src/store.rs and transport.rs).
mod Defs
mod Store
mod Frames
mod Runs
unfoldable pub use Defs.*
pub use Store.*
pub use Frames.*
pub use Runs.*
