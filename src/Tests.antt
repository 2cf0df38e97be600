-- ===== src/Tests.antt =====
-- Runs of the models on small inputs, and the theorems applied to them.
mod Limits
mod Routes
mod Stores
mod Keys
mod LogSink
mod Callers
mod Configurations
mod Documents
mod Bodies
mod Streams
mod Serving
mod Secrets
mod Providers
