-- ===== src/Engine/Milestone/Loop.antt =====
-- src/engine/milestone/loop.ts: rounds until the criteria are met or a halt is due.
-- The functions that the loop is given act on the world. `effectiveMaxRounds + 1` turns of the
-- loop are enough, since a turn that goes on leaves at least one round.
use corellia.Prelude.{
  ℕ, zero, suc, ◌+◌, String, Option, none, some, List, [], ◌∷◌, ltb, if◌then◌else◌,
}
use corellia.Prelude.Int.{ℤ, pos, negsuc}
use corellia.Prelude.Text.{concat}
use corellia.Contract.Goal.{Goal}
use corellia.Contract.Decision.{ChildPlan}
use corellia.Contract.Report.{Artifact, Report}
use corellia.Contract.Events.{
  MilestoneOutcome, done, continue, halt_ceiling, halt_deadline, round_started, round_assessed,
  emitted,
}
use corellia.Engine.World.{World, append_event}
use corellia.Engine.TreeSpend.{has_reached_spend_ceiling, has_reached_tree_deadline}
use corellia.Engine.Reports.{blocked_report}
use corellia.Engine.Milestone.Outcome.{
  RoundAssessment, ChildOutcome, decide_milestone_outcome, extract_criteria_artifact,
  with_unmet_acceptance_blockers,
}

pub record RoundResult : Type 0 where
  pub report : Report
  pub merged_artifact : Option Artifact
  pub child_outcomes : List ChildOutcome

-- The parameters of `runMilestoneLoop` that are functions. `re_decide` gives none for a halt.
pub record Rounds : Type 0 where
  pub run_round : List ChildPlan → World → RoundResult × World
  pub re_decide : RoundAssessment → Option String → World → Option (List ChildPlan) × World
  pub persist_criteria : Artifact → World → World
  pub commit_round : ℕ → World → Option String × World
  pub assess_round : Option Artifact → Option Artifact → World → RoundAssessment × World
  pub ceiling_once : World → World
  pub ceiling_report : World → Report × World

-- The local variables of the loop.
pub record LoopState : Type 0 where
  pub criteria_artifact : Option Artifact
  pub round_report : Report
  pub last_assessment : Option RoundAssessment
  pub prior_passing_count : ℤ
  pub flat_rounds : ℕ
  pub prior_round_ref : Option String
  pub round_children : List ChildPlan
  pub round_index : ℕ

-- How one turn of the loop ends: `return`, `break` with an outcome, or another turn.
pub data Turn : Type 0 where
  return : Report → World → Turn
  break : MilestoneOutcome → LoopState → World → Turn
  again : LoopState → World → Turn

unfoldable pub start : List ChildPlan → LoopState
start children = record {
  criteria_artifact = none;
  round_report = blocked_report "milestone loop produced no round" [] none;
  last_assessment = none;
  prior_passing_count = negsuc 0;
  flat_rounds = 0;
  prior_round_ref = none;
  round_children = children;
  round_index = 0;
}

-- The report after the loop, which is emitted.
unfoldable pub final_report : MilestoneOutcome → LoopState → Report
final_report outcome s = elim outcome [
  | done ↦ s.round_report
  | other ↦ elim s.last_assessment [
    | none ↦ s.round_report
    | some a ↦ with_unmet_acceptance_blockers s.round_report a
  ]
]

-- `if (outcome !== 'continue') break;`
abbrev pub settle : MilestoneOutcome → LoopState → LoopState → World → Turn
settle continue s next w = again next w
settle outcome s next w = break outcome s w

module _ (now : ℕ → ℕ) (goal : Goal) (max_rounds : ℕ) (fs : Rounds) where
  unfoldable pub append_round_assessed : ℕ → RoundAssessment → MilestoneOutcome → World → World
  append_round_assessed index a outcome w =
      append_event now goal.id
        (round_assessed index a.passing_count a.criteria_total a.judge_verdict outcome
          a.diff_digest)
        w

  -- The two checks that open a turn. The second reads the clock.
  unfoldable pub ceiling_check : LoopState → World → Turn
  ceiling_check s w = elim s.last_assessment [
    | none ↦ let (report, w') = fs.ceiling_report w in return report w'
    | some a ↦
        break halt_ceiling s
          (append_round_assessed s.round_index a halt_ceiling (fs.ceiling_once w))
  ]

  unfoldable pub deadline_check : LoopState → World → Turn
  deadline_check s w = elim s.last_assessment [
    | none ↦
        return
          (blocked_report
            (concat (
              "Goal \"" ∷ goal.title
              ∷ "\" exhausted its wallClockMs budget before the first round completed." ∷ []))
            [] none)
          w
    | some a ↦ break halt_deadline s (append_round_assessed s.round_index a halt_deadline w)
  ]

  harvest : Option Artifact → List ChildOutcome → World → Option Artifact × World
  harvest (some c) outcomes w = (some c, w)
  harvest none outcomes w = elim (extract_criteria_artifact outcomes) [
    | none ↦ (none, w)
    | some c ↦ (some c, fs.persist_criteria c w)
  ]

  -- A turn from the children that it runs.
  unfoldable pub run_children : LoopState → List ChildPlan → World → Turn
  unfolding harvest
  run_children s children w =
      let (round, w₁) = fs.run_round children w in
      let (criteria, w₂) = harvest s.criteria_artifact round.child_outcomes w₁ in
      let (ref, w₃) = fs.commit_round s.round_index w₂ in
      let (a, w₄) = fs.assess_round criteria round.merged_artifact w₃ in
      let d =
        decide_milestone_outcome a s.prior_passing_count s.flat_rounds s.round_index max_rounds in
      let w₅ = append_round_assessed s.round_index a d.outcome w₄ in
      let s' = record s {
        criteria_artifact = criteria;
        round_report = round.report;
        last_assessment = some a;
        flat_rounds = d.flat_rounds;
        round_children = children;
      } in
      settle d.outcome s'
        (record s' {
          prior_passing_count = pos a.passing_count;
          prior_round_ref = elim ref [ none ↦ s.prior_round_ref | some r ↦ some r ];
          round_index = s.round_index + 1;
        })
        w₅

  -- `lastAssessment!` is there whenever `roundIndex > 0`.
  unfoldable pub re_decided : LoopState → World → Turn
  re_decided s w = elim s.last_assessment [
    | none ↦ break continue s w
    | some a ↦
        let (children, w') = fs.re_decide a s.prior_round_ref w in
        elim children [ none ↦ break continue s w' | some plans ↦ run_children s plans w' ]
  ]

  unfoldable pub turn : LoopState → World → Turn
  turn s w =
      let w₁ = record w { tick = suc w.tick } in
      let w₂ =
        append_event now goal.id
          (round_started s.round_index w.tree.spent_usd goal.budget.wall_clock_ms) w₁ in
      if has_reached_spend_ceiling w.tree
      then ceiling_check s w
      else if has_reached_tree_deadline w.tree (now w.tick)
      then deadline_check s w₁
      else if ltb 0 s.round_index
      then re_decided s w₂
      else run_children s s.round_children w₂

  -- `while (true)`, and what follows it.
  abbrev pub proceed :
      (LoopState → World → Option (Report × World)) → Turn → Option (Report × World)
  proceed more (return report w) = some (report, w)
  proceed more (break outcome s w) =
      let report = final_report outcome s in
      some (report, append_event now goal.id (emitted report) w)
  proceed more (again s w) = more s w

  unfoldable pub rounds : ℕ → LoopState → World → Option (Report × World)
  rounds zero s w = none
  rounds (suc fuel) s w = proceed (rounds fuel) (turn s w)

  unfoldable pub run_milestone_loop : List ChildPlan → World → Option (Report × World)
  unfolding rounds
  run_milestone_loop children w = rounds (suc max_rounds) (start children) w
