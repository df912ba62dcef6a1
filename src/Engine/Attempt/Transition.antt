-- ===== src/Engine/Attempt/Transition.antt =====
-- src/engine/attempt/failure-transition.ts and repair-flow.ts: from a failed attempt to the next.
use corellia.Prelude.{ℕ, suc, Option, none, some, List, [], ◌∷◌, Bool, true, false, if◌then◌else◌}
use corellia.Prelude.Text.{concat}
use corellia.Contract.Goal.{Budget, Goal, Tier, low, mid, high}
use corellia.Contract.Report.{Artifact, Report}
use corellia.Contract.Verdict.{Dimension, Severity, Finding, Verdict}
use corellia.Engine.World.{World}
use corellia.Engine.Attempt.State.{ArtifactFailureTransition, emitted, ceiling, blocked, retry}
use corellia.Engine.Attempt.Recheck.{RecheckArtifactResult}
use corellia.Engine.Attempt.Failure.{
  repaired, escalated, block, Failed, Means, resolve_attempt_failure,
}

abbrev pub same_tier : Tier → Tier → Bool
same_tier low low = true
same_tier mid mid = true
same_tier high high = true
same_tier _ _ = false

-- `tierLadder.indexOf(tier)`, where none stands for -1.
unfoldable pub tier_index_for : List Tier → Tier → Option ℕ
tier_index_for [] tier = none
tier_index_for (t ∷ ts) tier =
    let rest = tier_index_for ts tier in
    if same_tier t tier then some 0 else elim rest [ none ↦ none | some n ↦ some (suc n) ]

unfoldable pub missing_recheck_verdict : Goal → Verdict
missing_recheck_verdict goal = record {
  pass = false;
  findings =
      record {
        title = concat ("Repair recheck for " ∷ goal.type ∷ " failed without a verdict" ∷ []);
        dimension = Dimension.robustness;
        severity = Severity.high;
        gating = true;
        prescription = none;
        escalated = false;
      }
      ∷ [];
  failure_signature = some (concat ("repair-recheck-missing-verdict:" ∷ goal.type ∷ []));
}

unfoldable pub verdict_with_step_loop_finding : Verdict → Option Finding → Verdict
verdict_with_step_loop_finding v tail = elim tail [
  | none ↦ v
  | some f ↦ record v { findings = f ∷ v.findings }
]

-- The recheck of a repaired artifact, and what is emitted when it passes.
pub record Finish : Type 0 where
  pub recheck : Artifact → Budget → Tier → World → RecheckArtifactResult × World
  pub emit_success : Artifact → World → Report × World

module _ {Transcript : Type 0} (m : Means) (fin : Finish) (tail : Option Finding)
    (transcript : Option Transcript) where
  -- `finishRepairedAttempt`, and what follows it.
  unfoldable pub finish_repaired_attempt :
      Failed → Artifact → Budget → World → ArtifactFailureTransition Transcript × World
  finish_repaired_attempt f artifact budget w =
      let (r, w₁) = fin.recheck artifact budget f.tier w in
      if r.ceiling
      then (ceiling, w₁)
      else if r.passed
      then (let (report, w₂) = fin.emit_success artifact w₁ in (emitted report, w₂))
      else (
        retry (record {
          budget = r.budget;
          tier = r.tier;
          tier_index = tier_index_for m.tier_ladder r.tier;
          prior_attempt = record {
            artifact = some artifact;
            verdict = elim r.verdict [ none ↦ missing_recheck_verdict f.goal | some v ↦ v ];
          };
          prior_loop_transcript = transcript;
        }),
        w₁,
      )

  unfoldable pub transition_artifact_failure :
      Failed → World → ArtifactFailureTransition Transcript × World
  transition_artifact_failure f w =
      let (resolution, w₁) = resolve_attempt_failure m f w in
      elim resolution [
        | repaired artifact budget ↦ finish_repaired_attempt f artifact budget w₁
        | escalated tier budget ↦ (
          retry (record {
            budget = budget;
            tier = tier;
            tier_index = tier_index_for m.tier_ladder tier;
            prior_attempt = record {
              artifact = some f.artifact;
              verdict = verdict_with_step_loop_finding f.verdict tail;
            };
            prior_loop_transcript = transcript;
          }),
          w₁,
        )
        | block report ↦ (blocked report, w₁)
      ]
