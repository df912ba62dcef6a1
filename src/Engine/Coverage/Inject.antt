-- ===== src/Engine/Coverage/Inject.antt =====
-- src/engine/coverage-gate.ts: the children that are put before a split to make its knowledge.
use corellia.Prelude.{
  String, Option, none, some, List, [], ◌∷◌, ◌++◌, map, not, ◌||◌, filter, any, length,
  if◌then◌else◌, ◌==◌,
}
use corellia.Prelude.Text.{concat}
use corellia.Contract.Decision.{ChildPlan}
use corellia.Contract.GoalType.{GoalTypeDef}
use corellia.Contract.Knowledge.{KnowledgeCategory}
use corellia.Engine.Fallible.{Fallible, returns, throws}
use corellia.Engine.SplitValidation.Shares.{renormalize_shares}
use corellia.Engine.SplitValidation.Check.{validate_split}
use corellia.Engine.Coverage.Paths.{scopes_overlap}
use corellia.Engine.Coverage.Policy.{MissingRequirement, category_name, same_category}

unfoldable pub encode_missing : MissingRequirement → String
encode_missing m = elim m.region [
  | some region ↦ concat (category_name m.category ∷ ":" ∷ region ∷ [])
  | none ↦ category_name m.category
]

unfoldable pub filter_missing_covered_by_refresh :
    List MissingRequirement → List KnowledgeCategory → List MissingRequirement
filter_missing_covered_by_refresh missing refreshed =
    filter (λ m. not (any (same_category m.category) refreshed)) missing

unfoldable pub gate_missing_labels : List MissingRequirement → List ChildPlan → List String
gate_missing_labels missing refresh_children =
    map encode_missing missing
    ++ map (λ c. concat ("refresh:" ∷ c.type ∷ ":" ∷ c.local_id ∷ [])) refresh_children

unfoldable pub without_dependencies : List ChildPlan → List ChildPlan
without_dependencies children = map (λ (c : ChildPlan). record c { depends_on = [] }) children

unfoldable pub deps_for_child : ChildPlan → List ChildPlan → List String
deps_for_child child injected =
    map (λ i. i.local_id)
      (filter (λ i. length i.scope == 0 || scopes_overlap child.scope i.scope) injected)

abbrev pub wait_for : List ChildPlan → ChildPlan → ChildPlan
wait_for injected child = record child {
  depends_on = child.depends_on ++ deps_for_child child injected;
}

-- An augmented split that is not valid is thrown away.
unfoldable pub checked : (String → Option GoalTypeDef) → List ChildPlan → Fallible (List ChildPlan)
checked resolve_type augmented = elim (validate_split augmented (some resolve_type)) [
  | none ↦ returns augmented
  | some e ↦ throws (concat ("coverage-gate-invalid-split:" ∷ e ∷ []))
]

unfoldable pub inject_coverage_children :
    List ChildPlan
    → List MissingRequirement
    → List ChildPlan
    → (List MissingRequirement → List ChildPlan)
    → (String → Option GoalTypeDef)
    → Fallible (List ChildPlan)
unfolding without_dependencies deps_for_child checked
inject_coverage_children children missing refresh_children mint resolve_type =
    let comprehension : List ChildPlan = if length missing == 0 then [] else mint missing in
    let injected = without_dependencies comprehension ++ without_dependencies refresh_children in
    if length injected == 0
    then returns children
    else checked resolve_type (renormalize_shares (injected ++ map (wait_for injected) children))
