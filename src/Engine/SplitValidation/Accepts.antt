-- ===== src/Engine/SplitValidation/Accepts.antt =====
-- Which splits `validateSplit` of src/engine/split-validation.ts accepts.
use corellia.Prelude.{
  ◌≤◌, ◌<◌, ◌≡◌, ◌≢◌, ◌↔◌, inl, inr, refl, ap, String, Option, none, some, List, [], ◌∷◌, true,
  ◌&&◌, In, In-includes, includes-In, All, includes, str_eq, str_eq→eq, str_eq→ne, &&-eq-true,
  length, if◌then◌else◌, arith, Bool-cases, Option-cases,
}
use corellia.Contract.Decision.{ChildPlan}
use corellia.Contract.GoalType.{GoalTypeDef}
use corellia.Engine.SplitValidation.Cycle.{
  ids_of, length-ids_of, has_dependency_cycle, Cyclic, has_dependency_cycle-Cyclic,
}
use corellia.Engine.SplitValidation.Shares.{total_share, validate_budget_shares}
use corellia.Engine.SplitValidation.Check.{
  set_of, or_else, is_empty, input_violation, fit_error, child_type_error, child_type_errors,
  validate_child_types, dependency_error, dependency_errors, validate_dependency_graph,
  validate_split,
}
use corellia.Engine.SplitValidation.SetOf.{Distinct, In-set_of, length-set_of}

-- The child's goal type is known, and the child meets what it asks for.
abbrev pub FitsType : (String → Option GoalTypeDef) → ChildPlan → Type 0
FitsType resolve_type c =
    (def : GoalTypeDef) × (resolve_type c.type ≡ some def)
    × (def.requires_scope ≡ true → c.scope ≢ [])
    × (input_violation def c ≡ none)

abbrev pub FitTypes : Option (String → Option GoalTypeDef) → List ChildPlan → Type 0
FitTypes none children = Unit
FitTypes (some resolve_type) children = All (FitsType resolve_type) children

-- Each dependency is another child of the split.
abbrev pub DependsOnSiblings : List ChildPlan → ChildPlan → Type 0
DependsOnSiblings children c =
    All (λ dep. In dep (ids_of children) × (dep ≢ c.local_id)) c.depends_on

pub record IsSplit (children : List ChildPlan) (resolve_type : Option (String → Option GoalTypeDef))
    : Type 0 where
  pub inhabited : children ≢ []
  pub distinct : Distinct (ids_of children)
  pub typed : FitTypes resolve_type children
  pub within : total_share children ≤ 1000100
  pub siblings : All (DependsOnSiblings children) children
  pub acyclic : ¬ Cyclic children

or_else-none : (a b : Option String) → (or_else a b ≡ none) ↔ (a ≡ none) × (b ≡ none)
or_else-none none b = (λ h. (refl, h), λ h. h.1)
or_else-none (some e) b = (λ h. absurd (ground arith), λ h. absurd (ground arith))

is_empty_lem : (xs : List String) → (is_empty xs ≡ true) ↔ (xs ≡ [])
is_empty_lem [] = (λ h. refl, λ h. refl)
is_empty_lem (x ∷ xs) = (λ h. absurd (ground arith), λ h. absurd (ground arith))

fit_error-none :
    (def : GoalTypeDef) (c : ChildPlan)
    → (fit_error def c ≡ none)
      ↔ (def.requires_scope ≡ true → c.scope ≢ []) × (input_violation def c ≡ none)
unfolding fit_error
fit_error-none def c =
    let scope = is_empty_lem c.scope in
    (
      λ h. (λ r e. let k = scope.1 e in ground arith, ground arith),
      λ h. elim (Bool-cases (def.requires_scope && is_empty c.scope)) [
        | inl b ↦
            let both = &&-eq-true def.requires_scope (is_empty c.scope) b in
            absurd (h.0 both.0 (scope.0 both.1))
        | inr b ↦ rw b (ground arith)
      ],
    )

child_type_error-none :
    (resolve_type : String → Option GoalTypeDef) (c : ChildPlan)
    → (child_type_error resolve_type c ≡ none) ↔ FitsType resolve_type c
unfolding child_type_error
child_type_error-none resolve_type c = (
  λ h. elim (Option-cases (resolve_type c.type)) [
    | inl e ↦ absurd (ground arith)
    | inr (def, e) ↦ let fits = (fit_error-none def c).0 (ground arith) in (def, e, fits.0, fits.1)
  ],
  λ h. let fits = (fit_error-none h.0 c).1 (h.2, h.3) in let known = h.1 in ground arith,
)

child_type_errors-none :
    (resolve_type : String → Option GoalTypeDef) (cs : List ChildPlan)
    → (child_type_errors resolve_type cs ≡ none) ↔ All (FitsType resolve_type) cs
unfolding child_type_errors
child_type_errors-none resolve_type [] = (λ h. tt, λ h. refl)
child_type_errors-none resolve_type (c ∷ cs) =
    let one = child_type_error-none resolve_type c in
    let rest = child_type_errors-none resolve_type cs in
    let both = or_else-none (child_type_error resolve_type c) (child_type_errors resolve_type cs) in
    (λ h. (one.0 (both.0 h).0, rest.0 (both.0 h).1), λ h. both.1 (one.1 h.0, rest.1 h.1))

dependency_error-none :
    (children : List ChildPlan) (id : String) (deps : List String)
    → (dependency_error (set_of (ids_of children)) id deps ≡ none)
      ↔ All (λ dep. In dep (ids_of children) × (dep ≢ id)) deps
unfolding dependency_error
dependency_error-none children id [] = (λ h. tt, λ h. refl)
dependency_error-none children id (dep ∷ deps) =
    let rest = dependency_error-none children id deps in
    let ids = In-set_of (ids_of children) dep in
    elim (Bool-cases (includes (set_of (ids_of children)) dep)) [
      | inr e ↦ rw e (
        λ h. absurd (ground arith),
        λ h.
            let k = In-includes (set_of (ids_of children)) dep (ids.1 h.0.0) in
            absurd (ground arith),
      )
      | inl e ↦ elim (Bool-cases (str_eq dep id)) [
        | inl q ↦ rw e (rw q (λ h. absurd (ground arith), λ h. absurd (h.0.1 (str_eq→eq dep id q))))
        | inr q ↦ rw e (
            rw q (
              λ h. (
                (ids.0 (includes-In (set_of (ids_of children)) dep e), str_eq→ne dep id q),
                rest.0 h,
              ),
              λ h. rest.1 h.1,
            ))
      ]
    ]

dependency_errors-none :
    (children cs : List ChildPlan)
    → (dependency_errors (set_of (ids_of children)) cs ≡ none) ↔ All (DependsOnSiblings children) cs
unfolding dependency_errors
dependency_errors-none children [] = (λ h. tt, λ h. refl)
dependency_errors-none children (c ∷ cs) =
    let one = dependency_error-none children c.local_id c.depends_on in
    let rest = dependency_errors-none children cs in
    let both =
      or_else-none (dependency_error (set_of (ids_of children)) c.local_id c.depends_on)
        (dependency_errors (set_of (ids_of children)) cs) in
    (λ h. (one.0 (both.0 h).0, rest.0 (both.0 h).1), λ h. both.1 (one.1 h.0, rest.1 h.1))

validate_child_types-none :
    (children : List ChildPlan) (resolve_type : Option (String → Option GoalTypeDef))
    → (validate_child_types children resolve_type ≡ none) ↔ FitTypes resolve_type children
unfolding validate_child_types
validate_child_types-none children none = (λ h. tt, λ h. refl)
validate_child_types-none children (some resolve_type) =
    child_type_errors-none resolve_type children

validate_budget_shares-none :
    (children : List ChildPlan)
    → (validate_budget_shares children ≡ none) ↔ (total_share children ≤ 1000100)
unfolding validate_budget_shares
validate_budget_shares-none children = (λ h. ground arith, λ h. ground arith)

validate_dependency_graph-none :
    (children : List ChildPlan)
    → (validate_dependency_graph children (set_of (ids_of children)) ≡ none)
      ↔ All (DependsOnSiblings children) children × ¬ Cyclic children
unfolding validate_dependency_graph
validate_dependency_graph-none children =
    let deps = dependency_errors-none children children in
    let cycle = has_dependency_cycle-Cyclic children in
    let both = or_else-none (dependency_errors (set_of (ids_of children)) children) (
      if has_dependency_cycle children then some "Cyclic dependency detected in split" else none) in
    (
      λ h. (
        deps.0 (both.0 h).0,
        λ c. let e = cycle.1 c in let k = (both.0 h).1 in absurd (ground arith),
      ),
      λ h. both.1 (
        deps.1 h.0,
        elim (Bool-cases (has_dependency_cycle children)) [
          | inl e ↦ absurd (h.1 (cycle.0 e))
          | inr e ↦ rw e
        ],
      ),
    )

inhabited_length : (children : List ChildPlan) → children ≢ [] → 0 < length children
inhabited_length [] h = absurd (h refl)
inhabited_length (c ∷ cs) h = omega arith

-- The validation accepts a split exactly when it is a proper split: it has a child, no two with one
-- id, each of a known type whose needs it meets, shares of one whole at most but for rounding, and
-- dependencies that are siblings and form no cycle.
pub validate_split-IsSplit :
    (children : List ChildPlan) (resolve_type : Option (String → Option GoalTypeDef))
    → (validate_split children resolve_type ≡ none) ↔ IsSplit children resolve_type
unfolding validate_split
validate_split-IsSplit children resolve_type =
    let size = length-set_of (ids_of children) in
    let count = length-ids_of children in
    let types = validate_child_types-none children resolve_type in
    let shares = validate_budget_shares-none children in
    let graph = validate_dependency_graph-none children in
    let both = or_else-none (validate_child_types children resolve_type) (
      or_else (validate_budget_shares children)
        (validate_dependency_graph children (set_of (ids_of children)))) in
    let last =
      or_else-none (validate_budget_shares children)
        (validate_dependency_graph children (set_of (ids_of children))) in
    (
      λ h.
          let rest = last.0 (both.0 (ground arith)).1 in
          record {
            inhabited = λ e. let none_there = ap length e in absurd (ground arith);
            distinct = size.0 (ground arith);
            typed = types.0 (both.0 (ground arith)).0;
            within = shares.0 rest.0;
            siblings = (graph.0 rest.1).0;
            acyclic = (graph.0 rest.1).1;
          },
      λ v.
          let e =
            both.1 (types.1 v.typed, last.1 (shares.1 v.within, graph.1 (v.siblings, v.acyclic))) in
          let same = size.1 v.distinct in
          let some_there = inhabited_length children v.inhabited in ground arith,
    )
