-- ===== src/Providers.antt =====
-- The providers (packages/core/src/providers): requests in the shape of OpenAI's API on the one side, an
-- upstream API on the other.
pub mod Wire
pub mod Shared
pub mod Anthropic
