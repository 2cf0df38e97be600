-- ===== src/Cache.antt =====
-- The prompt cache (packages/core/src/cache).
pub mod Memory
