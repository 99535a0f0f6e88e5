-- ===== src/Routing.antt =====
-- internal/routing: from a requested model to a provider and its model.
pub mod Prefixes
pub mod Decision
pub mod Metrics
pub mod Cooldown
pub mod Preferred
pub mod Selector
pub mod Router
pub mod Diagnostics
