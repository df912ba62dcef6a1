-- ===== src/Engine/SplitValidation/Cycle.antt =====
-- src/engine/split-validation.ts, `hasDependencyCycle` on the children of a split.
use corellia.Prelude.{
  suc, ◌≡◌, ◌≢◌, ◌↔◌, refl, sym, subst, String, Option, none, some, Option-cases, List, [], ◌∷◌,
  map, Bool, true, false, false≢true, In, str_eq, str_eq→eq, length, if◌then◌else◌, Bool-cases,
  arith, inl, inr,
}
use corellia.Contract.Decision.{ChildPlan}
use corellia.Engine.SplitValidation.Graph.{Walk, Walk-first, Grounded, Grounded-acyclic}
use corellia.Engine.SplitValidation.Search.{Search, visit_each, visit}
use corellia.Engine.SplitValidation.Found.{Found, visit_all-Found}

abbrev pub ids_of : List ChildPlan → List String
ids_of children = map (λ c. c.local_id) children

-- `depMap.get(id)`: of two children of one name the later one counts.
unfoldable pub dep_map : List ChildPlan → String → Option (List String)
dep_map [] id = none
dep_map (c ∷ cs) id = elim (dep_map cs id) [
  | some deps ↦ some deps
  | none ↦ if str_eq c.local_id id then some c.depends_on else none
]

-- `depMap.get(id) ?? []`
unfoldable pub dependencies : List ChildPlan → String → List String
dependencies children id = elim (dep_map children id) [ some deps ↦ deps | none ↦ [] ]

-- One unit of fuel for each child, and one more.
unfoldable pub dependency_search : List ChildPlan → Option (Bool × Search)
dependency_search children =
    visit_each (visit (dependencies children) (suc (length children))) (ids_of children)
      (record { visited = []; in_stack = [] })

-- The search always returns, by `dependency_search_ends`.
unfoldable pub has_dependency_cycle : List ChildPlan → Bool
has_dependency_cycle children = elim (dependency_search children) [
  | none ↦ false
  | some (found, s) ↦ found
]

-- Some child depends on itself, over one dependency or more.
abbrev pub Cyclic : List ChildPlan → Type 0
Cyclic children = (x : String) × Walk (dependencies children) x x

dep_map-In :
    (children : List ChildPlan) (id : String) {ds : List String}
    → dep_map children id ≡ some ds
    → In id (ids_of children)
unfolding dep_map
dep_map-In [] id h = cc
dep_map-In (c ∷ cs) id h = elim (Option-cases (dep_map cs id)) [
  | inr (ds, e) ↦ inr (dep_map-In cs id e)
  | inl e ↦ elim (Bool-cases (str_eq c.local_id id)) [
    | inl q ↦ inl (sym (str_eq→eq c.local_id id q))
    | inr q ↦ absurd (ground arith)
  ]
]

In-some :
    (d : String) (o : Option (List String))
    → In d (elim o as (λ _. List String) [ none ↦ [] | some ds ↦ ds ])
    → (ds : List String) × (o ≡ some ds)
In-some d none m = absurd m
In-some d (some ds) m = (ds, refl)

dependencies-In :
    (children : List ChildPlan) (x d : String)
    → In d (dependencies children x)
    → In x (ids_of children)
unfolding dependencies
dependencies-In children x d m =
    let (ds, e) = In-some d (dep_map children x) m in dep_map-In children x e

pub length-ids_of : (children : List ChildPlan) → length (ids_of children) ≡ length children
length-ids_of [] = refl
length-ids_of (c ∷ cs) = omega (arith, length-ids_of cs)

search-Found :
    (children : List ChildPlan)
    → Found
        (dependencies children)
        (ids_of children)
        (record { visited = []; in_stack = [] })
        (dependency_search children)
unfolding dependency_search
search-Found children =
    visit_all-Found (dependencies children) (ids_of children) (dependencies-In children)
      (suc (length children)) (ids_of children) (omega (arith, length-ids_of children))

-- The search of a split for cycles never runs out of its fuel.
dependency_search_ends : (children : List ChildPlan) → dependency_search children ≢ none
dependency_search_ends children e =
    subst (Found (dependencies children) (ids_of children) (record { visited = []; in_stack = [] }))
      e (search-Found children)

Found-iff :
    (children : List ChildPlan) (s : Search) (r : Option (Bool × Search))
    → Found (dependencies children) (ids_of children) s r
    → (elim r as (λ _. Bool) [ none ↦ false | some (found, t) ↦ found ] ≡ true) ↔ Cyclic children
Found-iff children s none h = absurd h
Found-iff children s (some (true, t)) h = (λ _. h, λ _. refl)
Found-iff children s (some (false, t)) h = (
  λ e. absurd (false≢true e),
  λ c.
      let (d, m) = Walk-first (dependencies children) c.1 in
      absurd
        (Grounded-acyclic (dependencies children) (h.0 c.0 (dependencies-In children c.0 d m)) c.1),
)

-- A cycle is reported exactly when some child depends on itself, over one dependency or more.
pub has_dependency_cycle-Cyclic :
    (children : List ChildPlan) → (has_dependency_cycle children ≡ true) ↔ Cyclic children
unfolding has_dependency_cycle
has_dependency_cycle-Cyclic children =
    Found-iff children (record { visited = []; in_stack = [] }) (dependency_search children)
      (search-Found children)

-- Where no child depends on itself, nothing endless lies below a child.
pub acyclic-Grounded :
    (children : List ChildPlan) (id : String)
    → ¬ Cyclic children
    → In id (ids_of children)
    → Grounded (dependencies children) id
acyclic-Grounded children id h m = grounded (dependency_search children) (search-Found children)
  where
    grounded :
        (r : Option (Bool × Search))
        → Found (dependencies children) (ids_of children) (record { visited = []; in_stack = [] }) r
        → Grounded (dependencies children) id
    grounded none f = absurd f
    grounded (some (true, t)) f = absurd (h f)
    grounded (some (false, t)) f = f.0 id m
