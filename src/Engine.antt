-- ===== src/Engine.antt =====
-- src/engine/: the recursive engine.
pub mod World
pub mod Fallible
pub mod Budget
pub mod TreeSpend
pub mod Reports
pub mod Blocking
pub mod Milestone
pub mod DeterministicGate
pub mod RepairIntegration
pub mod SplitValidation
pub mod SplitChildren
pub mod Coverage
pub mod SplitAcceptance
pub mod SplitRound
pub mod SplitDispatch
pub mod Attempt
pub mod Samples
pub mod SplitSamples
mod Examples
mod SplitExamples
