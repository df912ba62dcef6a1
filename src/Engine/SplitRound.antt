-- ===== src/Engine/SplitRound.antt =====
-- A round of a split after its children: src/engine/split-round.ts, split-report.ts,
-- split-integration.ts and what they call.
pub mod Layer
pub mod Promotion
pub mod Merge
pub mod Judge
pub mod RoundReport
pub mod Refresh
pub mod Integrate
pub mod Close
pub mod Judged
pub mod Earned
pub mod Promoted
mod Examples
