-- ===== src/Contract.antt =====
-- The types that every layer shares: src/contract/.
pub mod Json
pub mod Goal
pub mod Decision
pub mod Report
pub mod Verdict
pub mod Knowledge
pub mod Jobs
pub mod GoalType
pub mod Events
