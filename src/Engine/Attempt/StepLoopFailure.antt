-- ===== src/Engine/Attempt/StepLoopFailure.antt =====
-- src/engine/attempt/step-loop-failure.ts, with the failures of src/engine/step-loop-result.ts: from
-- a step loop that failed to the next attempt. The JSON text of a transcript is a parameter.
use corellia.Prelude.{ℕ, ◌≡◌, refl, String, Option, none, some, [], ◌∷◌, true, false, str_eq_self}
use corellia.Prelude.Text.{concat}
use corellia.Contract.Goal.{Budget, Goal, Tier}
use corellia.Contract.Report.{Artifact, ArtifactKind, Report}
use corellia.Contract.Verdict.{Dimension, Severity, Verdict}
use corellia.Contract.Events.{budget_exhausted, tool_calls}
use corellia.Engine.World.{World, append_event}
use corellia.Engine.Reports.{blocked_report}
use corellia.Engine.Attempt.State.{AttemptPrior, AttemptRetryState}
use corellia.Engine.Attempt.Transition.{tier_index_for}
use corellia.Engine.Attempt.Failure.{
  AttemptFailureResolution, repaired, escalated, block, Failed, Means, is_transport,
  isomorphic_failure, block_with_report, resolve_attempt_failure,
}

pub data StepLoopFailKind : Type 0 where
  failed malformed transport : StepLoopFailKind

pub data StepLoopFailure : Type 0 where
  exhausted : StepLoopFailure
  failed : (error : String) (kind : Option StepLoopFailKind) → StepLoopFailure

pub record FailedStepLoop (Transcript : Type 0) : Type 0 where
  pub failure : StepLoopFailure
  pub budget : Budget
  pub transcript : Transcript

unfoldable pub step_loop_failure_title : StepLoopFailure → String
step_loop_failure_title exhausted = "Tool-call budget exhausted in step loop"
step_loop_failure_title (failed error kind) = concat ("Step loop failed: " ∷ error ∷ [])

unfoldable pub step_loop_failure_signature : StepLoopFailure → String
step_loop_failure_signature exhausted = "step-loop:exhausted"
step_loop_failure_signature (failed error none) = "step-loop:failed"
step_loop_failure_signature (failed error (some StepLoopFailKind.failed)) = "step-loop:failed"
step_loop_failure_signature (failed error (some StepLoopFailKind.malformed)) = "step-loop:malformed"
step_loop_failure_signature (failed error (some StepLoopFailKind.transport)) = "step-loop:transport"

unfoldable pub step_loop_failure_verdict : StepLoopFailure → Verdict
step_loop_failure_verdict f = record {
  pass = false;
  findings =
      record {
        title = step_loop_failure_title f;
        dimension = Dimension.spec;
        severity = Severity.high;
        gating = true;
        prescription = none;
        escalated = false;
      }
      ∷ [];
  failure_signature = some (step_loop_failure_signature f);
}

pub data StepLoopFailureTransition (Transcript : Type 0) : Type 0 where
  blocked : Report → StepLoopFailureTransition Transcript
  retry : AttemptRetryState Transcript → StepLoopFailureTransition Transcript

-- The attempt whose step loop failed.
pub record FailedAttempt : Type 0 where
  pub goal : Goal
  pub tier : Tier
  pub tier_index : Option ℕ
  pub prior_attempt : Option AttemptPrior
  pub salvaged_artifact : Option Artifact

module _ {Transcript : Type 0} (m : Means) (stringify : Transcript → String) where
  unfoldable pub step_loop_failure_artifact : Transcript → Artifact
  step_loop_failure_artifact t = record {
    kind = ArtifactKind.text;
    files = none;
    text = some (stringify t);
    empty_diagnosis = none;
  }

  unfoldable pub failure_artifact : FailedAttempt → Transcript → Artifact
  failure_artifact a t = elim a.salvaged_artifact [
    | none ↦ step_loop_failure_artifact t
    | some x ↦ x
  ]

  -- What this attempt leaves for the next to be compared with.
  unfoldable pub transcript_attempt : FailedAttempt → FailedStepLoop Transcript → AttemptPrior
  transcript_attempt a r = record {
    artifact = some (failure_artifact a r.transcript);
    verdict = step_loop_failure_verdict r.failure;
  }

  unfoldable pub note_exhaustion : Goal → StepLoopFailure → World → World
  note_exhaustion goal exhausted w = append_event m.now goal.id (budget_exhausted tool_calls) w
  note_exhaustion goal (failed error kind) w = w

  -- Without a prior attempt, this one stands in its place.
  unfoldable pub failed_of_step_loop : FailedAttempt → FailedStepLoop Transcript → Failed
  failed_of_step_loop a r = record {
    goal = a.goal;
    artifact = failure_artifact a r.transcript;
    verdict = step_loop_failure_verdict r.failure;
    budget = r.budget;
    tier = a.tier;
    tier_index = a.tier_index;
    prior_attempt =
        some (elim a.prior_attempt [ none ↦ transcript_attempt a r | some prior ↦ prior ]);
    salvaged_artifact = a.salvaged_artifact;
  }

  unfoldable pub retry_with :
      FailedAttempt
      → FailedStepLoop Transcript
      → Budget
      → Tier
      → Option ℕ
      → StepLoopFailureTransition Transcript
  retry_with a r budget tier index = retry (record {
    budget = budget;
    tier = tier;
    tier_index = index;
    prior_attempt = transcript_attempt a r;
    prior_loop_transcript = some r.transcript;
  })

  -- A repaired artifact is not used.
  unfoldable pub after_step_loop_resolution :
      FailedAttempt
      → FailedStepLoop Transcript
      → AttemptFailureResolution
      → StepLoopFailureTransition Transcript
  after_step_loop_resolution a r (block report) = blocked report
  after_step_loop_resolution a r (escalated tier budget) =
      retry_with a r budget tier (tier_index_for m.tier_ladder tier)
  after_step_loop_resolution a r (repaired artifact budget) =
      retry_with a r budget a.tier a.tier_index

  unfoldable pub transition_step_loop_failure :
      FailedAttempt
      → FailedStepLoop Transcript
      → World
      → StepLoopFailureTransition Transcript × World
  transition_step_loop_failure a r w =
      let (resolution, w') =
        resolve_attempt_failure m (failed_of_step_loop a r) (note_exhaustion a.goal r.failure w) in
      (after_step_loop_resolution a r resolution, w')

-- On any ladder, the first failure of a step loop that is none of transport blocks at once: it is
-- compared with itself and found to be a repetition.
pub first_failure_blocks :
    {Transcript : Type 0} (m : Means) (stringify : Transcript → String) (a : FailedAttempt)
    (r : FailedStepLoop Transcript) (w : World)
    → a.prior_attempt ≡ none
    → is_transport (step_loop_failure_verdict r.failure) ≡ false
    → (transition_step_loop_failure m stringify a r w).0
      ≡ blocked (
          blocked_report
            (concat (
              "Isomorphic failure detected (signature: "
              ∷ step_loop_failure_signature r.failure
              ∷ ") — escalating to block"
              ∷ []))
            (step_loop_failure_title r.failure ∷ [])
            a.salvaged_artifact)
unfolding transition_step_loop_failure resolve_attempt_failure failed_of_step_loop
    after_step_loop_resolution isomorphic_failure block_with_report transcript_attempt
    step_loop_failure_verdict
first_failure_blocks m stringify a r w h n =
    rw (h, n, str_eq_self (step_loop_failure_signature r.failure)) refl
