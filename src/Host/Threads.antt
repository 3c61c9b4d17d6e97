-- ===== src/Host/Threads.antt =====
-- The operations on single Threads, crates/hirsel-host/src/storage/threads.rs.
pub mod Rules
pub mod Create
pub mod Edit
pub mod Headline
pub mod Kinds
pub mod Writes
pub mod Refreshed
pub mod Agent
pub mod Grown
pub mod Shown
pub mod Steps
pub mod Fenced
mod Examples
