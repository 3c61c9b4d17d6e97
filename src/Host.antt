-- ===== src/Host.antt =====
-- crates/hirsel-host/src: who may address whom among the Threads, and a Thread's headline.
pub mod Closure
pub mod Tables
pub mod Scope
pub mod Grants
pub mod Reach
pub mod Granted
pub mod Authority
pub mod Receipts
pub mod Rollups
pub mod Turns
pub mod Threads
mod Examples
