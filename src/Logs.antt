-- ===== src/Logs.antt =====
-- Request logs (packages/core/src/logs).
pub mod Buffer
pub mod Content
