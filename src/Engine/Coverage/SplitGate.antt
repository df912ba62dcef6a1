-- ===== src/Engine/Coverage/SplitGate.antt =====
-- src/engine/coverage/split-gate.ts: the gate between a valid split and its children.
use corellia.Prelude.{
  ℕ, String, Option, none, some, List, [], ◌∷◌, ◌++◌, map, Bool, true, not, ◌&&◌, length,
  if◌then◌else◌, ◌==◌,
}
use corellia.Contract.Goal.{Goal}
use corellia.Contract.Decision.{ChildPlan}
use corellia.Contract.GoalType.{GoalTypeDef}
use corellia.Contract.Events.{gate_checked}
use corellia.Engine.World.{World, append_event}
use corellia.Engine.Fallible.{Fallible, returns, throws}
use corellia.Engine.Coverage.Paths.{region_key}
use corellia.Engine.Coverage.Policy.{CoverageGoal, KnowledgeForCoverage, coverage_check, is_make}
use corellia.Engine.Coverage.Checkpoint.{
  KnowledgeGateway, CheckpointResult, checkpoint_verify_artifacts,
}
use corellia.Engine.Coverage.Inject.{
  filter_missing_covered_by_refresh, gate_missing_labels, inject_coverage_children,
}

-- The scopes of the children that make something without a split of their own.
unfoldable pub make_leaf_child_scopes : (String → Option GoalTypeDef) → List ChildPlan → List String
make_leaf_child_scopes resolve_type [] = []
make_leaf_child_scopes resolve_type (c ∷ cs) =
    let rest = make_leaf_child_scopes resolve_type cs in
    elim (resolve_type c.type) [
      | none ↦ rest
      | some def ↦ if is_make def.kind && def.leaf_only then c.scope ++ rest else rest
    ]

-- `typeDef` is the type of the goal in the registry.
unfoldable pub build_coverage_goal :
    (String → Option GoalTypeDef)
    → Option (String → String → World → Bool)
    → GoalTypeDef
    → Goal
    → List ChildPlan
    → String
    → World
    → CoverageGoal
build_coverage_goal resolve_type region_exists type_def goal children repo_root w =
    let entries = make_leaf_child_scopes resolve_type children in
    let scope = goal.scope ++ entries in
    record {
      kind = type_def.kind;
      is_root_split = length entries == 0 && not type_def.leaf_only;
      scope = scope;
      type_name = goal.type;
      exists_by_region =
          map
            (λ s.
              let region = region_key s in
              let there : Bool = elim region_exists [
                | none ↦ true
                | some f ↦ f repo_root region w
              ] in
              (region, there))
            scope;
    }

module _ (now : ℕ → ℕ) (gateway : KnowledgeGateway) (resolve_type : String → Option GoalTypeDef)
    (type_def : GoalTypeDef) (goal : Goal) (repo_root : String) where
  -- The gate after the artifacts were verified.
  unfoldable pub gate_checked_split :
      List ChildPlan
      → KnowledgeForCoverage
      → CheckpointResult
      → World
      → Fallible (List ChildPlan) × World
  gate_checked_split children k verified w =
      let coverage_goal =
        build_coverage_goal resolve_type gateway.region_exists type_def goal children repo_root w in
      let missing =
        filter_missing_covered_by_refresh
          (coverage_check coverage_goal k verified.validated_ok).missing
          verified.refreshed_categories in
      let ok = length missing == 0 && length verified.refresh_children == 0 in
      let w' =
        append_event now goal.id
          (gate_checked ok (gate_missing_labels missing verified.refresh_children)) w in
      if ok then (returns children, w') else (
        inject_coverage_children children missing verified.refresh_children
            gateway.mint_comprehension resolve_type,
        w',
      )

  unfoldable pub run_knowledge_coverage_split_gate :
      List ChildPlan → World → Fallible (List ChildPlan) × World
  run_knowledge_coverage_split_gate children w =
      let (known, w₁) = gateway.query repo_root w in
      elim known [
        | throws m ↦ (throws m, w₁)
        | returns k ↦
            let (verified, w₂) = checkpoint_verify_artifacts now gateway goal k repo_root none w₁ in
            elim verified [
              | throws m ↦ (throws m, w₂)
              | returns v ↦ gate_checked_split children k v w₂
            ]
      ]
