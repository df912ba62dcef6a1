-- ===== src/Engine/SplitAcceptance.antt =====
-- src/engine/decision/split-acceptance.ts and split-eval.ts: from a proposed split to an accepted one.
pub mod Verdicts
pub mod Turn
pub mod Loop
mod Covered
mod GateSpend
pub mod Proper
pub mod Priced
pub mod Climbs
pub mod Ends
