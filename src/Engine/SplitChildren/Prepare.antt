-- ===== src/Engine/SplitChildren/Prepare.antt =====
-- src/engine/split-children.ts, `runOneSplitChild`: what a child does with its dependencies'
-- reports before it runs, and with its own report after.
use corellia.Prelude.{
  ℕ, String, Option, none, some, List, [], ◌∷◌, ◌++◌, length, if◌then◌else◌, ◌==◌, str_eq, map,
}
use corellia.Prelude.Text.{concat}
use corellia.Contract.Goal.{Goal, Kind, MemoryPointer}
use corellia.Contract.Decision.{ChildPlan}
use corellia.Contract.Report.{Report}
use corellia.Contract.Events.{emitted, dependency_degraded}
use corellia.Engine.World.{World, append_event}
use corellia.Engine.Reports.{blocked_report}
use corellia.Engine.SplitChildren.KnowledgeMemory.{FactsForRegions, dive_facts_as_memories}
use corellia.Engine.SplitChildren.StructuralFloor.{RegionScanner}
use corellia.Engine.SplitChildren.DiveFloor.{
  first_blocker, classify_fatal_deps, inject_structural_floor,
}
use corellia.Engine.SplitChildren.Goals.{child_id}

-- What a round is given. A read of HEAD that throws is none.
pub record Hooks : Type 0 where
  pub now : ℕ → ℕ
  pub parent : Goal
  pub repo_root : String
  pub facts_for_regions : Option FactsForRegions
  pub head_sha : Option (String → World → Option String)
  pub region_scanner : Option RegionScanner
  pub kind_of : String → Option Kind

-- A child that waits for its dependencies, that runs with findings to add, or that has reported.
pub data Phase : Type 0 where
  waiting : Phase
  running : (goal : Goal) (findings : List String) → Phase
  finished : (report : Report) → Phase

-- How a child's run ends.
pub data ChildOutcome : Type 0 where
  returned : Report → ChildOutcome
  threw : String → ChildOutcome

-- A dependency, its report and its plan.
pub record DepReport : Type 0 where
  pub local_id : String
  pub report : Report
  pub plan : Option ChildPlan

module _ (h : Hooks) where
  unfoldable pub block_child : Goal → String → World → Phase × World
  block_child goal reason w =
      let report = blocked_report reason [] none in
      (finished report, append_event h.now goal.id (emitted report) w)

  -- A dependency that blocked and delivered something.
  unfoldable pub append_dependency_degraded_events :
      Goal → List DepReport → World → List String × World
  append_dependency_degraded_events child_goal [] w = ([], w)
  append_dependency_degraded_events child_goal (d ∷ ds) w =
      let degraded =
        append_event h.now child_goal.id
          (dependency_degraded (child_id h.parent d.local_id) (first_blocker d.report)) w in
      let same = append_dependency_degraded_events child_goal ds w in
      let rest = append_dependency_degraded_events child_goal ds degraded in
      if length d.report.blockers == 0 then same else elim d.report.artifact [
        | none ↦ same
        | some a ↦ (
          concat (
                "Proceeded on a degraded dependency ("
                ∷ d.local_id
                ∷ ") that blocked but produced a usable partial: "
                ∷ first_blocker d.report
                ∷ [])
              ∷ rest.0,
          rest.1,
        )
      ]

  unfoldable pub head_sha_of : World → String
  head_sha_of w = elim h.head_sha [
    | none ↦ ""
    | some read ↦
        if str_eq h.repo_root ""
        then ""
        else elim (read h.repo_root w) [ none ↦ "" | some sha ↦ sha ]
  ]

  unfoldable pub late_dive_memories : Goal → World → List MemoryPointer
  late_dive_memories child_goal w =
      dive_facts_as_memories h.facts_for_regions h.repo_root child_goal.scope (head_sha_of w) w

  unfoldable pub inject_dive_memories : Goal → World → Goal
  inject_dive_memories child_goal w = record child_goal {
    memories = child_goal.memories ++ late_dive_memories child_goal w;
  }

  -- From the reports of the dependencies to the run of the child, or to its block.
  unfoldable pub prepare : ChildPlan → Goal → List DepReport → World → Phase × World
  prepare child goal deps w =
      let fatal = classify_fatal_deps h.kind_of (map (λ d. (d.report, d.plan)) deps) in
      let (degraded, w') = append_dependency_degraded_events goal deps w in
      let ((floored, findings), w'') =
        inject_structural_floor h.now child goal h.repo_root h.region_scanner
          fatal.floorable_regions w' in
      elim fatal.hard [
        | blocker ∷ more ↦
            block_child goal
              (concat (
                "Blocked because a dependency failed without producing any usable artifact: "
                ∷ blocker ∷ []))
              w
        | [] ↦ (running (inject_dive_memories floored w'') (degraded ++ findings), w'')
      ]

  -- The extra findings follow the report's own.
  unfoldable pub conclude : Goal → List String → ChildOutcome → World → Phase × World
  conclude goal extra (returned report) w =
      (finished (record report { findings = report.findings ++ extra }), w)
  conclude goal extra (threw message) w =
      block_child goal (concat ("child threw: " ∷ message ∷ [])) w
