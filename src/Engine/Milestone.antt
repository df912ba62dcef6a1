-- ===== src/Engine/Milestone.antt =====
-- src/engine/milestone/: the rounds of an iterating goal.
pub mod Outcome
pub mod Loop
pub mod Ends
