-- ===== src/Engine/SplitChildren/DiveFloor.antt =====
-- src/engine/dive-floor-handoff.ts: which failed dependencies a child survives, and on what.
use corellia.Prelude.{
  ℕ, String, Option, none, some, List, [], ◌∷◌, ◌++◌, Bool, true, false, not, ◌&&◌, ◌||◌, length,
  if◌then◌else◌, ◌==◌,
}
use corellia.Prelude.Text.{concat, join}
use corellia.Contract.Goal.{Goal, Kind}
use corellia.Contract.Decision.{ChildPlan}
use corellia.Contract.Report.{Report}
use corellia.Contract.Events.{dependency_degraded}
use corellia.Engine.World.{World, append_event}
use corellia.Engine.SplitChildren.StructuralFloor.{RegionScanner, dedupe, structural_floor_memories}

pub record FatalDepClassification : Type 0 where
  pub hard : List String
  pub floorable_regions : List String

-- `report.blockers[0] ?? 'unknown'`
abbrev pub first_blocker : Report → String
first_blocker r = elim r.blockers [ [] ↦ "unknown" | b ∷ bs ↦ b ]

-- A dependency that blocked and delivered nothing.
abbrev pub is_fatal : Report → Bool
is_fatal r = not (length r.blockers == 0) && elim r.artifact [ none ↦ true | some a ↦ false ]

abbrev pub is_learn : Option Kind → Bool
is_learn (some Kind.learn) = true
is_learn (some Kind.make) = false
is_learn (some Kind.judge) = false
is_learn (some Kind.evolve) = false
is_learn none = false

unfoldable pub floorable_scope : (String → Option Kind) → Option ChildPlan → List String
floorable_scope kind_of none = []
floorable_scope kind_of (some plan) = if is_learn (kind_of plan.type) then plan.scope else []

-- A report and the plan of the dependency, pair by pair.
unfoldable pub classify_fatal_deps :
    (String → Option Kind) → List (Report × Option ChildPlan) → FatalDepClassification
unfolding floorable_scope
classify_fatal_deps kind_of [] = record { hard = []; floorable_regions = [] }
classify_fatal_deps kind_of ((report, plan) ∷ deps) =
    let rest = classify_fatal_deps kind_of deps in
    let scope = floorable_scope kind_of plan in
    if not (is_fatal report)
    then rest
    else if length scope == 0
    then record rest { hard = first_blocker report ∷ rest.hard }
    else record rest { floorable_regions = scope ++ rest.floorable_regions }

unfoldable pub inject_structural_floor :
    (ℕ → ℕ)
    → ChildPlan
    → Goal
    → String
    → Option RegionScanner
    → List String
    → World
    → (Goal × List String) × World
inject_structural_floor now child child_goal repo_root none null_dive_regions w =
    ((child_goal, []), w)
inject_structural_floor now child child_goal repo_root (some scanner) null_dive_regions w =
    let memories = structural_floor_memories null_dive_regions scanner repo_root w in
    let regions = join ", " (dedupe null_dive_regions) in
    if length null_dive_regions == 0 || length memories == 0 then ((child_goal, []), w) else (
      (
        record child_goal { memories = child_goal.memories ++ memories },
        concat (
              "Proceeded on a structural floor for " ∷ regions
              ∷ ": the region dive produced no usable facts, so the builder started from a mechanically-derived file/symbol map (provisional) instead of re-surveying from scratch."
              ∷ [])
            ∷ [],
      ),
      append_event now child_goal.id
          (dependency_degraded (join ", " child.depends_on) (
            concat (
              "dive produced no facts for " ∷ regions ∷ "; proceeding on a structural floor" ∷ [])))
          w,
    )
