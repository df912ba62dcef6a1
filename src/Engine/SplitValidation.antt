-- ===== src/Engine/SplitValidation.antt =====
-- src/engine/split-validation.ts: when a proposed split is accepted.
pub mod Graph
pub mod Search
mod Sets
mod Found
pub mod Cycle
pub mod Shares
pub mod Check
pub mod SetOf
pub mod Accepts
