-- ===== src/Engine/Attempt.antt =====
-- src/engine/attempt/: the gates of what an attempt made, and what follows a failed one.
pub mod State
pub mod Failure
pub mod Recheck
pub mod Transition
pub mod Ladder
pub mod Retries
pub mod Gated
pub mod Stuck
pub mod Refusal
pub mod Authority
pub mod Tournament
pub mod Evaluation
pub mod Delivered
pub mod Honest
pub mod Unjudged
pub mod StepLoopFailure
mod Examples
mod EvaluationExamples
