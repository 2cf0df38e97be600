-- ===== src/Util.antt =====
-- packages/core/src/util.
pub mod Duration
pub mod InputTokens
pub mod Sse
