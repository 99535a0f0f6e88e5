-- ===== src/Tests.antt =====
-- Concrete runs of the development.
pub mod Samples
pub mod Operations
pub mod Routes
pub mod Cooldowns
pub mod Services
pub mod Configs
pub mod Upstreams
pub mod Providers
pub mod Control
pub mod Revisions
