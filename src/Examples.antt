-- ===== src/Examples.antt =====
-- Runs of the code on concrete inputs.
pub mod Registry
pub mod Rules
pub mod Guarding
pub mod Updates
pub mod Gateway
pub mod Files
pub mod Fleet
pub mod Targets
pub mod Calls
pub mod Logins
pub mod Queues
