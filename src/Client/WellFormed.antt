-- ===== src/Client/WellFormed.antt =====
-- What holds of the client's store between two frames, and that every frame keeps it
-- (crates/hirsel-client-core/src/store.rs and transport.rs).
mod Defs
mod Messages
mod Work
mod Detail
mod Frames
mod Calls
mod Lives
unfoldable pub use Defs.*
pub use Messages.*
pub use Work.*
pub use Detail.*
pub use Frames.*
unfoldable pub use Calls.*
unfoldable pub use Lives.*
