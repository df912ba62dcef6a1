-- ===== src/Engine/SplitAcceptance/Verdicts.antt =====
-- src/engine/decision/split-eval.ts, must-decompose-guard.ts and src/engine/judge-support.ts: the
-- verdicts on a split, and what a decider is asked again. The brain, the JSON text of a plan, the
-- rubric with its skills and the digests are parameters.
use corellia.Prelude.{
  ℕ, String, Option, none, some, List, [], ◌∷◌, Bool, true, false, str_eq, if◌then◌else◌,
}
use corellia.Prelude.Text.{concat}
use corellia.Contract.Goal.{Goal, MemoryPointer, Tier, Usage}
use corellia.Contract.Decision.{ChildPlan, Decision}
use corellia.Contract.Verdict.{Verdict, Dimension, Severity}
use corellia.Contract.Report.{Artifact, text, Report}
use corellia.Contract.Events.{judge_verdict, golden_candidate}
use corellia.Contract.GoalType.{GoalTypeDef}
use corellia.Engine.World.{World, append_event}
use corellia.Engine.Reports.{blocked_report}
use corellia.Engine.Coverage.Checkpoint.{KnowledgeGateway}

-- What a decider reads besides the goal.
pub record DecideContext : Type 0 where
  pub tier : Tier
  pub memories : List MemoryPointer
  pub prior_attempt : Option (Artifact × Verdict)
  pub must_decompose : Bool
  pub decide_correction : Option String

pub record Acceptance : Type 0 where
  pub now : ℕ → ℕ
  pub goal : Goal
  pub type_def : GoalTypeDef
  pub tier : Tier
  pub resolve_type : String → Option GoalTypeDef
  pub decide : Goal → DecideContext → World → (Decision × Usage) × World
  pub judge : Goal → Artifact → String → Tier → World → (Verdict × Usage) × World
  pub has_judge_split : Bool
  pub repo_root : Option String
  pub knowledge : Option KnowledgeGateway
  pub stringify : List ChildPlan → String
  pub enrich_rubric : String → String → Goal → String
  pub golden_capture : Bool
  pub sha1 : String → String
  pub model_by_tier : Tier → Option String

abbrev pub judge_split_type : String
judge_split_type = "judge-split"

abbrev pub split_structure_check : String
split_structure_check = "split-structure"

unfoldable pub invalid_split_structure_verdict : String → Verdict
invalid_split_structure_verdict e = record {
  pass = false;
  findings =
      record {
        title = "Invalid split structure";
        dimension = Dimension.spec;
        severity = Severity.high;
        gating = true;
        prescription = some e;
        escalated = false;
      }
      ∷ [];
  failure_signature = some (concat ("invalid-split:" ∷ e ∷ []));
}

abbrev pub same_signature : Option String → Option String → Bool
same_signature none none = true
same_signature none (some b) = false
same_signature (some a) none = false
same_signature (some a) (some b) = str_eq a b

-- Two failures in a row without a signature are the same failure.
unfoldable pub isomorphic_split_failure : Option Verdict → Verdict → Bool
isomorphic_split_failure none v = false
isomorphic_split_failure (some prior) v = same_signature v.failure_signature prior.failure_signature

unfoldable pub rejected_split_satisfy_report : Goal → Report
rejected_split_satisfy_report goal =
    blocked_report
      (concat (
        "Type \"" ∷ goal.type ∷ "\" must decompose and cannot satisfy directly -- after a "
        ∷ "rejected split it re-decided to satisfy, which is invalid for a type with "
        ∷ "no producing tool. Re-commission with a clearer, decomposable intent, or "
        ∷ "the split must propose valid typed children." ∷ []))
      [] none

unfoldable pub correction_text : Goal → String
correction_text goal = concat (
    "Your last decision was \"satisfy\". That is structurally INVALID for type " ∷ "\"" ∷ goal.type
    ∷ "\": it has no tool with which to produce the product -- its only "
    ∷ "job is to decompose. Return a \"split\" that breaks this intent into typed "
    ∷ "children (e.g. comprehension dives over the regions you must understand, "
    ∷ "then implement leaves that do the work), or \"block\" with a brief ONLY if you "
    ∷ "genuinely cannot decompose. Do NOT return satisfy again." ∷ [])

module _ (a : Acceptance) where
  unfoldable pub split_plan_artifact : List ChildPlan → Artifact
  split_plan_artifact children = record {
    kind = text;
    files = none;
    text = some (a.stringify children);
    empty_diagnosis = none;
  }

  unfoldable pub split_rubric : String
  split_rubric =
      a.enrich_rubric
        "Evaluate the split: is it sound and complete? Are dependencies correct and acyclic? Are budgetShares sensible?"
        judge_split_type a.goal

  -- The artifact of a plan is a text.
  unfoldable pub append_golden_candidate : String → String → Verdict → World → World
  append_golden_candidate plan rubric verdict w =
      if a.golden_capture
      then append_event a.now a.goal.id
          (golden_candidate judge_split_type (a.sha1 plan) (a.sha1 rubric) verdict.pass a.tier
            (a.model_by_tier a.tier))
          w
      else w

  unfoldable pub judge_split_decision : List ChildPlan → World → (Verdict × Usage) × World
  judge_split_decision children w =
      let ((verdict, usage), w') =
        a.judge a.goal (split_plan_artifact children) split_rubric a.tier w in
      (
        (verdict, usage),
        append_golden_candidate (a.stringify children) split_rubric verdict (
            append_event a.now a.goal.id
              (judge_verdict judge_split_type verdict a.tier (some usage)) w'),
      )
