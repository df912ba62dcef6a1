-- ===== src/Listener.antt =====
-- src/listener/: admission at the front door.
pub mod ScopeOverlap
pub mod Symmetric
mod Examples
