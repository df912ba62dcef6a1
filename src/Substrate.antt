-- ===== src/Substrate.antt =====
-- src/substrate/: the stores.
pub mod JobQueue
pub mod PatternStore
