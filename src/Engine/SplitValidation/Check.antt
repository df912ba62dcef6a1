-- ===== src/Engine/SplitValidation/Check.antt =====
-- src/engine/split-validation.ts: `validateSplit`. An error is a text; none is a split without one.
use corellia.Prelude.{
  String, Option, none, some, List, [], ◌∷◌, Bool, not, includes, str_eq, length, if◌then◌else◌,
  ◌==◌, ◌&&◌,
}
use corellia.Prelude.Text.{concat}
use corellia.Contract.Decision.{ChildPlan}
use corellia.Contract.GoalType.{GoalTypeDef}
use corellia.Engine.SplitValidation.Cycle.{ids_of, has_dependency_cycle}
use corellia.Engine.SplitValidation.Shares.{validate_budget_shares}

-- `new Set(ids)`, of which only the size and the members are read.
unfoldable pub set_of : List String → List String
set_of [] = []
set_of (x ∷ xs) = let rest = set_of xs in if includes xs x then rest else x ∷ rest

abbrev pub is_empty : List String → Bool
is_empty xs = length xs == 0

-- `a ?? b`, of two possible errors.
abbrev pub or_else : Option String → Option String → Option String
or_else (some e) b = some e
or_else none b = b

unknown_type : ChildPlan → String
unknown_type c =
    concat ("Child \"" ∷ c.local_id ∷ "\" has unknown goal type \"" ∷ c.type ∷ "\"" ∷ [])

needs_scope : ChildPlan → String
needs_scope c = concat (
    "Child \"" ∷ c.local_id ∷ "\" (type \"" ∷ c.type
    ∷ "\") requires a non-empty scope — it must declare the region it touches (ADR-039)" ∷ [])

bad_input : ChildPlan → String → String
bad_input c violation =
    concat (
      "Child \"" ∷ c.local_id ∷ "\" (type \"" ∷ c.type ∷ "\") has invalid input: " ∷ violation ∷ [])

-- `def.validateInput?.(child.spec) ?? null`
abbrev pub input_violation : GoalTypeDef → ChildPlan → Option String
input_violation def c = elim def.validate_input [ none ↦ none | some validate ↦ validate c.spec ]

unfoldable pub fit_error : GoalTypeDef → ChildPlan → Option String
unfolding needs_scope bad_input
fit_error def c =
    if def.requires_scope && is_empty c.scope
    then some (needs_scope c)
    else elim (input_violation def c) [ none ↦ none | some v ↦ some (bad_input c v) ]

-- One child against its goal type.
unfoldable pub child_type_error : (String → Option GoalTypeDef) → ChildPlan → Option String
unfolding unknown_type
child_type_error resolve_type c = elim (resolve_type c.type) [
  | none ↦ some (unknown_type c)
  | some def ↦ fit_error def c
]

unfoldable pub child_type_errors : (String → Option GoalTypeDef) → List ChildPlan → Option String
child_type_errors resolve_type [] = none
child_type_errors resolve_type (c ∷ cs) =
    or_else (child_type_error resolve_type c) (child_type_errors resolve_type cs)

unfoldable pub validate_child_types :
    List ChildPlan → Option (String → Option GoalTypeDef) → Option String
validate_child_types children none = none
validate_child_types children (some resolve_type) = child_type_errors resolve_type children

unknown_sibling : String → String → String
unknown_sibling id dep =
    concat ("Child \"" ∷ id ∷ "\" depends on unknown sibling \"" ∷ dep ∷ "\"" ∷ [])

-- The dependencies of one child.
unfoldable pub dependency_error : List String → String → List String → Option String
unfolding unknown_sibling
dependency_error ids id [] = none
dependency_error ids id (dep ∷ deps) =
    let rest = dependency_error ids id deps in
    if not (includes ids dep)
    then some (unknown_sibling id dep)
    else if str_eq dep id
    then some (concat ("Child \"" ∷ id ∷ "\" depends on itself" ∷ []))
    else rest

unfoldable pub dependency_errors : List String → List ChildPlan → Option String
dependency_errors ids [] = none
dependency_errors ids (c ∷ cs) =
    or_else (dependency_error ids c.local_id c.depends_on) (dependency_errors ids cs)

unfoldable pub validate_dependency_graph : List ChildPlan → List String → Option String
validate_dependency_graph children ids =
    or_else (dependency_errors ids children)
      (if has_dependency_cycle children then some "Cyclic dependency detected in split" else none)

unfoldable pub validate_split :
    List ChildPlan → Option (String → Option GoalTypeDef) → Option String
validate_split children resolve_type =
    let ids = set_of (ids_of children) in
    if length children == 0
    then some "Split must have at least one child"
    else if not (length ids == length children)
    then some "Duplicate localIds in split"
    else or_else (validate_child_types children resolve_type)
        (or_else (validate_budget_shares children) (validate_dependency_graph children ids))
