-- ===== src/Engine/Coverage.antt =====
-- src/library/coverage.ts and src/engine/coverage*: the knowledge that a split must have first.
pub mod Paths
pub mod Policy
pub mod Checkpoint
pub mod Inject
pub mod SplitGate
