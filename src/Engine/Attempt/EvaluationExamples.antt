-- ===== src/Engine/Attempt/EvaluationExamples.antt =====
-- Artifacts that are judged, and one that a tournament lets through.
use corellia.Prelude.{◌≡◌, refl, String, none, some, [], ◌∷◌, Bool, true, false}
use corellia.Prelude.Text.{after, contains, skip_spaces, is_space, lower}
use corellia.Contract.Goal.{Tier}
use corellia.Contract.Report.{Artifact, ArtifactKind}
use corellia.Contract.Verdict.{RiskClass, Verdict}
use corellia.Contract.GoalType.{GoalTypeDef}
use corellia.Engine.World.{World}
use corellia.Engine.Reports.{build_report}
use corellia.Engine.Samples.{clock, small_budget, small_goal, world_of, usage_of, passes, fails}
use corellia.Engine.SplitSamples.{implement_type}
use corellia.Engine.Attempt.Refusal.{is_delivery_refusal, refuses}
use corellia.Engine.Attempt.Tournament.{Candidate, select_winner, best_by_fewest_findings}
use corellia.Engine.Attempt.Evaluation.{
  Evaluation, EvaluationResult, Produced, evaluated, evaluate_attempt_artifact,
  salvage_make_artifact,
}
use corellia.Prelude.Text.{concat}
use corellia.Engine.Reports.{blocked_report}
use corellia.Engine.Attempt.Failure.{Means}
use corellia.Engine.Attempt.Evaluation.{means_of}
use corellia.Engine.Attempt.StepLoopFailure.{
  exhausted, blocked, FailedStepLoop, FailedAttempt, transition_step_loop_failure,
  step_loop_failure_signature, step_loop_failure_title, step_loop_failure_verdict,
  first_failure_blocks,
}
use corellia.Engine.Attempt.Delivered.{Honest}
use corellia.Engine.Attempt.Unjudged.{losing_winner_delivered}

abbrev made : Artifact
made = record { kind = ArtifactKind.text; files = none; text = some "done"; empty_diagnosis = none }

abbrev judged_type : GoalTypeDef
judged_type = record implement_type { judge_type = some "judge-code" }

-- An evaluation with a judge that always says the same.
abbrev evaluation : Verdict → Evaluation
evaluation verdict = record {
  now = clock;
  on_brief = none;
  tier_ladder = Tier.low ∷ [];
  repair = λ goal artifact prescriptions tier w. (none, w);
  diagnosis = λ artifact. none;
  authority = record { now = clock; on_gate = none; on_brief = none; sensitivity = [] };
  judge = λ type goal artifact tier w. ((verdict, usage_of 2), w);
  goal = small_goal;
  type_def = judged_type;
  entry_risk = RiskClass.low;
  enforce_tool_call_budget = false;
  check_sandbox = none;
  sandbox = none;
  persist = λ goal artifact w. w;
}

abbrev produced : Bool → Produced String
produced ran = record {
  artifact = made;
  state = record {
    budget = small_budget;
    tier = Tier.low;
    tier_index = some 0;
    prior_attempt = none;
    prior_loop_transcript = none;
  };
  transcript_tail = none;
  tail_finding = none;
  tournament_ran = ran;
}

-- What the evaluation of a judged artifact leaves.
abbrev left : EvaluationResult String × World
left = evaluate_attempt_artifact (evaluation passes) (produced false) (world_of 0 none)

abbrev loser : Candidate
loser = record { artifact = made; verdict = fails }

losing_winner_delivered_example :
    ((select_winner loser (loser ∷ [])).verdict.pass ≡ false)
    × ((evaluate_attempt_artifact (evaluation fails) (produced true) (world_of 0 none)).0
        ≡ evaluated (build_report small_goal made))
unfolding select_winner best_by_fewest_findings salvage_make_artifact is_delivery_refusal refuses
    contains skip_spaces is_space lower after
losing_winner_delivered_example =
    losing_winner_delivered (evaluation fails) (produced true) loser (loser ∷ []) (world_of 0 none)
      refl refl refl refl refl refl refl

abbrev exhausted_loop : FailedStepLoop String
exhausted_loop = record { failure = exhausted; budget = small_budget; transcript = "[]" }

abbrev first_attempt : FailedAttempt
first_attempt = record {
  goal = small_goal;
  tier = Tier.low;
  tier_index = some 0;
  prior_attempt = none;
  salvaged_artifact = none;
}

-- The ladder has rungs above, and is not climbed.
abbrev climbable : Means
climbable = means_of (record (evaluation fails) { tier_ladder = Tier.low ∷ Tier.high ∷ [] })

first_failure_blocks_example :
    (transition_step_loop_failure climbable
      (λ t. t)
      first_attempt
      exhausted_loop
      (world_of 0 none)).0
    ≡ blocked (
        blocked_report
          (concat (
            "Isomorphic failure detected (signature: "
            ∷ step_loop_failure_signature exhausted
            ∷ ") — escalating to block"
            ∷ []))
          (step_loop_failure_title exhausted ∷ [])
          none)
unfolding step_loop_failure_verdict step_loop_failure_signature
first_failure_blocks_example =
    first_failure_blocks climbable (λ t. t) first_attempt exhausted_loop (world_of 0 none) refl refl
