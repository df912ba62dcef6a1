-- ===== src/Engine/Attempt/Recheck.antt =====
-- src/engine/attempt/recheck.ts: the gates of an attempt, run again on a repaired artifact.
-- `judge` is `judgeLeafArtifact` with its brain, and gives a verdict and what it cost.
use corellia.Prelude.{ℕ, String, Option, none, some, Bool, true, false, not, if◌then◌else◌}
use corellia.Contract.Goal.{Budget, Goal, Tier, Usage}
use corellia.Contract.GoalType.{GoalTypeDef}
use corellia.Contract.Report.{Artifact}
use corellia.Contract.Verdict.{Verdict}
use corellia.Engine.World.{World}
use corellia.Engine.TreeSpend.{debit_tree_state, has_reached_spend_ceiling}
use corellia.Engine.DeterministicGate.{run_deterministic_gate}

pub record RecheckArtifactResult : Type 0 where
  pub passed : Bool
  pub budget : Budget
  pub verdict : Option Verdict
  pub tier : Tier
  pub ceiling : Bool

-- What a judge is asked: the type that judges, the goal, the artifact and the tier.
abbrev pub Judge : Type 0
Judge = String → Goal → Artifact → Tier → World → (Verdict × Usage) × World

-- The part after the deterministic gate.
unfoldable pub recheck_judged :
    Judge → Goal → Artifact → Budget → Tier → Option String → World → RecheckArtifactResult × World
recheck_judged judge goal artifact budget tier judge_type w = elim judge_type [
  | none ↦
      (record { passed = true; budget = budget; verdict = none; tier = tier; ceiling = false }, w)
  | some type ↦
      let ((verdict, usage), w₁) = judge type goal artifact tier w in
      let w₂ = record w₁ { tree = debit_tree_state w₁.tree usage } in
      if has_reached_spend_ceiling w₂.tree
      then (
        record { passed = false; budget = budget; verdict = none; tier = tier; ceiling = true },
        w₂,
      )
      else if verdict.pass
      then (
        record { passed = true; budget = budget; verdict = none; tier = tier; ceiling = false },
        w₂,
      )
      else (
        record {
          passed = false;
          budget = budget;
          verdict = some verdict;
          tier = tier;
          ceiling = false;
        },
        w₂,
      )
]

unfoldable pub recheck_artifact_after_repair :
    (ℕ → ℕ)
    → Judge
    → GoalTypeDef
    → Goal
    → Artifact
    → Budget
    → Tier
    → World
    → RecheckArtifactResult × World
recheck_artifact_after_repair now judge def goal artifact budget tier w =
    let (gate, w') = run_deterministic_gate now goal (some artifact) def.deterministic budget w in
    elim gate.verdict [
      | none ↦ recheck_judged judge goal artifact gate.budget tier def.judge_type w'
      | some v ↦
          if not v.pass
          then (
            record {
              passed = false;
              budget = gate.budget;
              verdict = some v;
              tier = tier;
              ceiling = false;
            },
            w',
          )
          else recheck_judged judge goal artifact gate.budget tier def.judge_type w'
    ]
