-- ===== src/RateLimit.antt =====
-- packages/core/src/ratelimit: token budgets and the bound on requests in flight.
pub mod Limiter
pub mod Concurrency
