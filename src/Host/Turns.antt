-- ===== src/Host/Turns.antt =====
-- Turns, requests, reports and the archive: crates/hirsel-host/src/storage/thread_activity.rs,
-- thread_execution.rs, thread_requests.rs, thread_delegation.rs, thread_archive.rs,
-- thread_completion.rs, the execution bindings of thread_scope.rs, and thread_rollups.rs.
pub mod Texts
pub mod Headlines
pub mod Rows
pub mod Execution
pub mod Queue
pub mod Reports
pub mod Finish
pub mod Callers
pub mod Requests
pub mod Archive
pub mod Delegation
pub mod Messages
pub mod Machine
pub mod Kept
pub mod Runs
pub mod Climb
pub mod Refines
pub mod Bound
pub mod Held
pub mod Wakes
pub mod Fifo
pub mod Told
pub mod Boot
mod Examples
