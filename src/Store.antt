-- ===== src/Store.antt =====
-- The Postgres registry (internal/store): the tables and the effect of each statement on them.
pub mod Limits
pub mod RateLimits
pub mod Tokens
pub mod Workers
pub mod Counters
pub mod Cooldowns
pub mod Deliveries
pub mod Sends
pub mod Subscriptions
