-- ===== src/Host/Turns/Refines.antt =====
-- The operations on thread_turns are runs of the turn machine (Host/Turns/Machine).
pub mod Accept
pub mod Ends
pub mod Complete
pub mod Stops
pub mod Queued
pub mod Steps
pub mod Answered
