-- ===== src/Operation.antt =====
-- internal/operation: persistent long-running control-plane work.
pub mod Types
pub mod Metadata
pub mod Store
pub mod Lifecycle
pub mod Create
pub mod Calls
pub mod Recovery
