-- ===== src/Client/Store.antt =====
-- `LocalStore` of crates/hirsel-client-core/src/store.rs, a function for each method.
-- A method on `&mut self` returns the new store.
mod State
mod Messages
mod Work
mod Detail
unfoldable pub use State.*
unfoldable pub use Messages.*
unfoldable pub use Work.*
unfoldable pub use Detail.*
