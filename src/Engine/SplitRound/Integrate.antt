-- ===== src/Engine/SplitRound/Integrate.antt =====
-- src/engine/split-round.ts, `integrateWithRepair`, with `repairIntegration` of
-- src/engine/repair-integration.ts: the integration is judged, repaired once, and judged again.
use corellia.Prelude.{String, Option, none, some, List, [], ◌∷◌, Bool, true, false, if◌then◌else◌}
use corellia.Contract.Goal.{Goal}
use corellia.Contract.Decision.{ChildPlan}
use corellia.Contract.Report.{Artifact, Report}
use corellia.Contract.Verdict.{Verdict}
use corellia.Contract.Events.{repair_applied}
use corellia.Engine.World.{World, append_event}
use corellia.Engine.Fallible.{Fallible, returns, and_then}
use corellia.Engine.RepairIntegration.{
  is_repairable_integration_verdict, integration_repair_plan, repair_prescriptions,
}
use corellia.Engine.SplitChildren.Goals.{
  Query, build_split_child_goals, append_child_spawned_events,
}
use corellia.Engine.SplitRound.Merge.{
  ComprehendMergeResult, skipped, handled, merge_generic_child_artifacts,
}
use corellia.Engine.SplitRound.Judge.{Integrator, SplitIntegrationJudgment, judge_split_integration}
use corellia.Engine.SplitRound.Refresh.{
  CheckpointVerifyGateway, Checked, lift, refresh_drifted_knowledge_before_integrate,
}

-- What an integration is given. The files that a worktree changed are read by git.
pub record Integration : Type 0 where
  pub integrator : Integrator
  pub query : Query
  pub run_child : Goal → World → Fallible Report × World
  pub active_repo_root : Option String
  pub checkpoint_knowledge : Option CheckpointVerifyGateway
  pub worktree_files : Option (World → Option Artifact)

abbrev pub IntegrateResult : Type 0
IntegrateResult = Option Artifact × SplitIntegrationJudgment

module _ (i : Integration) where
  -- The one child that repairs, announced and run. Only a verdict that was given is repaired.
  unfoldable pub apply_repair : List ChildPlan → Verdict → List Goal → World → Fallible Bool × World
  apply_repair children v [] w = (returns true, w)
  apply_repair children v (g ∷ gs) w =
      let goal = i.integrator.goal in
      let plan = integration_repair_plan goal v children in
      let spawned = append_child_spawned_events i.integrator.now goal (plan ∷ []) (g ∷ []) w in
      and_then (i.run_child g spawned) (λ report w'. (
        returns true,
        append_event i.integrator.now g.id (repair_applied (repair_prescriptions v) none) w',
      ))

  -- Whether a repair was run.
  unfoldable pub repair_integration :
      Option Verdict → List ChildPlan → World → Fallible Bool × World
  unfolding apply_repair
  repair_integration none children w = (returns false, w)
  repair_integration (some v) children w =
      let plan = integration_repair_plan i.integrator.goal v children in
      let goals = build_split_child_goals i.integrator.goal (plan ∷ []) i.query in
      let repaired = apply_repair children v goals w in
      if is_repairable_integration_verdict (some v) then repaired else (returns false, w)

  unfoldable pub merged_artifact_of : ComprehendMergeResult → List Report → World → Option Artifact
  merged_artifact_of (handled merged blockers findings) reports w = merged
  merged_artifact_of skipped reports w = elim i.worktree_files [
    | none ↦ merge_generic_child_artifacts reports
    | some read ↦ elim (read w) [
      | none ↦ merge_generic_child_artifacts reports
      | some artifact ↦ some artifact
    ]
  ]

  unfoldable pub integrate_and_judge :
      ComprehendMergeResult → List Report → World → Fallible IntegrateResult × World
  integrate_and_judge c reports w =
      let merged = merged_artifact_of c reports w in
      and_then (judge_split_integration i.integrator merged w)
        (λ judgment w'. (returns (merged, judgment), w'))

  -- After the first judgment: the repair, and the second where there was one.
  unfoldable pub repair_and_judge_again :
      ComprehendMergeResult
      → List ChildPlan
      → List Report
      → IntegrateResult
      → World
      → Fallible IntegrateResult × World
  repair_and_judge_again c children reports first w =
      and_then (repair_integration first.1.verdict children w) (λ repaired w'.
        let second = integrate_and_judge c reports w' in
        if repaired then second else (returns first, w'))

  unfoldable pub integrate_with_repair :
      ComprehendMergeResult
      → List ChildPlan
      → List Report
      → Checked
      → Fallible IntegrateResult × Checked
  integrate_with_repair c children reports s =
      and_then
        (refresh_drifted_knowledge_before_integrate i.run_child i.integrator.now i.integrator.goal
          i.query i.checkpoint_knowledge i.active_repo_root s)
        (λ _ s₁. lift s₁ (
          and_then (integrate_and_judge c reports s₁.world)
            (repair_and_judge_again c children reports)))
