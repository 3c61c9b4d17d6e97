-- ===== src/Client/Examples.antt =====
-- Concrete runs of the client core (crates/hirsel-client-core/src).
mod Data
mod Store
mod Wire
