-- ===== src/Providers/Anthropic.antt =====
-- packages/core/src/providers/anthropic.ts: the translation to Anthropic's Messages API and back.
pub mod Messages
pub mod Request
pub mod Completion
pub mod Events
pub mod Stream
pub mod Client
