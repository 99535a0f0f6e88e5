-- ===== src/Routing/Cooldown.antt =====
-- internal/routing/cooldown.go: which targets are left alone, why and until when.
pub mod Entry
pub mod File
pub mod Registry
pub mod Duration
pub mod Policy
pub mod Laws
pub mod WellFormed
pub mod Reading
pub mod RoundTrip
