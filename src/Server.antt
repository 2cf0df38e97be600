-- ===== src/Server.antt =====
-- The middleware that stands before every request (packages/core/src/server).
pub mod PublicPath
pub mod KeyShape
pub mod Auth
pub mod Clients
pub mod Lifecycle
pub mod InputLimit
pub mod JsonObject
pub mod Effects
pub mod Pipeline
pub mod Embeddings
pub mod Response
pub mod Facts
pub mod Bodies
pub mod Handlers
