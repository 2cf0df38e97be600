-- ===== src/Runtime.antt =====
-- What is being served (packages/core/src/runtime).
pub mod Holder
