-- ===== src/Engine/SplitAcceptance/Covered.antt =====
-- The coverage gate of src/engine/decision/split-acceptance.ts returns valid splits only.
use corellia.Prelude.{◌≡◌, refl, String, Option, none, some, List, [], ◌∷◌, if_intro}
use corellia.Prelude.Text.{concat}
use corellia.Contract.Decision.{ChildPlan}
use corellia.Contract.GoalType.{GoalTypeDef}
use corellia.Engine.World.{World}
use corellia.Engine.Fallible.{Fallible, returns, throws, fallible_intro}
use corellia.Engine.SplitValidation.Check.{validate_split}
use corellia.Engine.Coverage.Policy.{KnowledgeForCoverage, MissingRequirement}
use corellia.Engine.Coverage.Checkpoint.{KnowledgeGateway, CheckpointResult}
use corellia.Engine.Coverage.Inject.{checked, inject_coverage_children}
use corellia.Engine.Coverage.SplitGate.{gate_checked_split, run_knowledge_coverage_split_gate}
use corellia.Engine.SplitAcceptance.Verdicts.{Acceptance}
use corellia.Engine.SplitAcceptance.Turn.{augment_split_for_coverage}

-- The children that are returned, if any, pass the validation.
unfoldable pub Passes : (String → Option GoalTypeDef) → Fallible (List ChildPlan) → Type 0
Passes resolve_type (returns children) = validate_split children (some resolve_type) ≡ none
Passes resolve_type (throws m) = Unit

returns-Passes :
    (resolve_type : String → Option GoalTypeDef) (cs : List ChildPlan)
    → validate_split cs (some resolve_type) ≡ none
    → Passes resolve_type (returns cs)
unfolding Passes
returns-Passes resolve_type cs ok = ok

throws-Passes :
    (resolve_type : String → Option GoalTypeDef) (m : String) → Passes resolve_type (throws m)
unfolding Passes
throws-Passes resolve_type m = tt

checked-Passes :
    (resolve_type : String → Option GoalTypeDef) (cs : List ChildPlan)
    → Passes resolve_type (checked resolve_type cs)
unfolding checked
checked-Passes resolve_type cs = go (validate_split cs (some resolve_type)) refl
  where
    go :
        (r : Option String)
        → validate_split cs (some resolve_type) ≡ r
        → Passes resolve_type (elim r as (λ _. Fallible (List ChildPlan)) [
          | none ↦ returns cs
          | some e ↦ throws (concat ("coverage-gate-invalid-split:" ∷ e ∷ []))
        ])
    go none e = returns-Passes resolve_type cs e
    go (some m) e = throws-Passes resolve_type _

inject-Passes :
    (children : List ChildPlan) (missing : List MissingRequirement) (refresh : List ChildPlan)
    (mint : List MissingRequirement → List ChildPlan) (resolve_type : String → Option GoalTypeDef)
    → validate_split children (some resolve_type) ≡ none
    → Passes resolve_type (inject_coverage_children children missing refresh mint resolve_type)
unfolding inject_coverage_children
inject-Passes children missing refresh mint resolve_type ok = search (
  if_intro (Passes resolve_type),
  returns-Passes resolve_type children ok,
  checked-Passes resolve_type,
)

module _ (a : Acceptance) where
  abbrev pub Covered : Fallible (List ChildPlan) × World → Type 0
  Covered r = Passes a.resolve_type r.0

  gate_checked-Passes :
      (gateway : KnowledgeGateway) (root : String) (children : List ChildPlan)
      (k : KnowledgeForCoverage) (v : CheckpointResult) (w : World)
      → validate_split children (some a.resolve_type) ≡ none
      → Covered
          (gate_checked_split a.now gateway a.resolve_type a.type_def a.goal root children k v w)
  unfolding gate_checked_split
  gate_checked-Passes gateway root children k v w ok =
      search (if_intro Covered, returns-Passes a.resolve_type children ok, inject-Passes)

  gate-Passes :
      (gateway : KnowledgeGateway) (root : String) (children : List ChildPlan) (w : World)
      → validate_split children (some a.resolve_type) ≡ none
      → Covered (
          run_knowledge_coverage_split_gate a.now gateway a.resolve_type a.type_def a.goal root
            children w)
  unfolding run_knowledge_coverage_split_gate
  gate-Passes gateway root children w ok =
      fallible_intro Covered (gateway.query root w).0 (λ m. throws-Passes a.resolve_type m)
        (λ k.
          fallible_intro Covered _ (λ m. throws-Passes a.resolve_type m)
            (λ v. gate_checked-Passes gateway root children k v _ ok))

  pub cover-Passes :
      (children : List ChildPlan) (w : World)
      → validate_split children (some a.resolve_type) ≡ none
      → Covered (augment_split_for_coverage a children w)
  unfolding augment_split_for_coverage
  cover-Passes children w ok = go a.knowledge a.repo_root
    where
      go :
          (k : Option KnowledgeGateway) (r : Option String)
          → Covered (elim k as (λ _. Fallible (List ChildPlan) × World) [
            | none ↦ (returns children, w)
            | some gateway ↦ elim r as (λ _. Fallible (List ChildPlan) × World) [
              | none ↦ (returns children, w)
              | some root ↦
                  run_knowledge_coverage_split_gate a.now gateway a.resolve_type a.type_def a.goal
                    root children w
            ]
          ])
      go none r = returns-Passes a.resolve_type children ok
      go (some gateway) none = returns-Passes a.resolve_type children ok
      go (some gateway) (some root) = gate-Passes gateway root children w ok
