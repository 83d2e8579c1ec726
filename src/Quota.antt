-- ===== src/Quota.antt =====
-- The policy of the operator's rate limits (internal/quota/quota.go).
pub mod Methods
pub mod Window
pub mod Rules
