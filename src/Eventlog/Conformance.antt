-- ===== src/Eventlog/Conformance.antt =====
-- src/eventlog/conformance.ts and conformance/: the audit of a run's log.
pub mod Violation
pub mod Ordering
pub mod Firsts
pub mod Gates
pub mod Touchpoints
pub mod Spend
pub mod Overshoot
pub mod Worktree
pub mod Nesting
pub mod JudgeWrites
pub mod HandsOff
pub mod Check
mod Examples
