-- ===== src/Session.antt =====
-- A worker's sessions (internal/session).
pub mod Limits
pub mod Guard
pub mod Balance
pub mod Observe
pub mod Admit
pub mod Subs
pub mod Deliver
pub mod Json
pub mod LocalFiles
pub mod Sent
pub mod Live
pub mod Login
pub mod Peers
pub mod Calls
pub mod Reconcile
