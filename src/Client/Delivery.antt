-- ===== src/Client/Delivery.antt =====
-- What becomes of the text that the user sends
-- (crates/hirsel-client-core/src/client.rs, store.rs and transport.rs).
mod Confirm
mod Drafts
pub use Confirm.*
pub use Drafts.*
