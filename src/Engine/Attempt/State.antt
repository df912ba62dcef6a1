-- ===== src/Engine/Attempt/State.antt =====
-- src/engine/attempt/state.ts: what one attempt hands to the next.
-- A transcript of a step loop is passed on and never read: its type is a parameter.
use corellia.Prelude.{ℕ, Option, none, some}
use corellia.Contract.Goal.{Budget, Tier}
use corellia.Contract.Report.{Artifact, Report}
use corellia.Contract.Verdict.{Verdict}

pub record AttemptPrior : Type 0 where
  pub artifact : Option Artifact
  pub verdict : Verdict

pub record AttemptRetryState (Transcript : Type 0) : Type 0 where
  pub budget : Budget
  pub tier : Tier
  pub tier_index : Option ℕ
  pub prior_attempt : AttemptPrior
  pub prior_loop_transcript : Option Transcript

pub record AttemptLoopState (Transcript : Type 0) : Type 0 where
  pub budget : Budget
  pub tier : Tier
  pub tier_index : Option ℕ
  pub prior_attempt : Option AttemptPrior
  pub prior_loop_transcript : Option Transcript

pub data ArtifactFailureTransition (Transcript : Type 0) : Type 0 where
  emitted : Report → ArtifactFailureTransition Transcript
  ceiling : ArtifactFailureTransition Transcript
  blocked : Report → ArtifactFailureTransition Transcript
  retry : AttemptRetryState Transcript → ArtifactFailureTransition Transcript

pub data AttemptContinuation (Transcript : Type 0) : Type 0 where
  ceiling : AttemptContinuation Transcript
  return : Report → AttemptContinuation Transcript
  retry : AttemptRetryState Transcript → AttemptContinuation Transcript

module _ {Transcript : Type 0} where
  unfoldable pub create_attempt_loop_state : Budget → Tier → Option ℕ → AttemptLoopState Transcript
  create_attempt_loop_state budget tier index = record {
    budget = budget;
    tier = tier;
    tier_index = index;
    prior_attempt = none;
    prior_loop_transcript = none;
  }

  unfoldable pub with_attempt_budget :
      AttemptLoopState Transcript → Budget → AttemptLoopState Transcript
  with_attempt_budget s budget = record s { budget = budget }

  unfoldable pub with_attempt_retry :
      AttemptLoopState Transcript → AttemptRetryState Transcript → AttemptLoopState Transcript
  with_attempt_retry s r = record {
    budget = r.budget;
    tier = r.tier;
    tier_index = r.tier_index;
    prior_attempt = some r.prior_attempt;
    prior_loop_transcript = r.prior_loop_transcript;
  }

  unfoldable pub continue_after_artifact_failure :
      ArtifactFailureTransition Transcript → AttemptContinuation Transcript
  continue_after_artifact_failure f = elim f [
    | ceiling ↦ AttemptContinuation.ceiling
    | emitted report ↦ return report
    | blocked report ↦ return report
    | retry r ↦ AttemptContinuation.retry r
  ]
