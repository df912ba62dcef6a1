-- ===== src/Engine/SplitValidation/Search.antt =====
-- src/engine/split-validation.ts, `hasDependencyCycle`: the depth-first search for a cycle.
-- A set is a list without repetition.
use corellia.Prelude.{
  ℕ, zero, suc, String, Option, none, some, List, [], ◌∷◌, Bool, true, false, not, filter, includes,
  str_eq, if◌then◌else◌,
}

pub record Search : Type 0 where
  pub visited : List String
  pub in_stack : List String

unfoldable pub add : List String → String → List String
add set x = if includes set x then set else x ∷ set

unfoldable pub delete : List String → String → List String
delete set x = filter (λ y. not (str_eq y x)) set

unfoldable pub mark : String → Search → Search
mark id s = record { visited = add s.visited id; in_stack = add s.in_stack id }

unfoldable pub unmark : String → Search → Search
unmark id s = record s { in_stack = delete s.in_stack id }

-- A loop of visits that stops at the first cycle.
unfoldable pub visit_each :
    (String → Search → Option (Bool × Search)) → List String → Search → Option (Bool × Search)
visit_each go [] s = some (false, s)
visit_each go (id ∷ ids) s = elim (go id s) [
  | none ↦ none
  | some (found, t) ↦ elim found [ true ↦ some (true, t) | false ↦ visit_each go ids t ]
]

-- The node leaves the stack after its dependencies, unless a cycle was found below it.
unfoldable pub leave : String → Option (Bool × Search) → Option (Bool × Search)
leave id none = none
leave id (some (true, s)) = some (true, s)
leave id (some (false, s)) = some (false, unmark id s)

-- The fuel is the depth of the calls; none means that it ran out.
unfoldable pub visit : (String → List String) → ℕ → String → Search → Option (Bool × Search)
visit deps zero id s = none
visit deps (suc fuel) id s =
    let below = leave id (visit_each (visit deps fuel) (deps id) (mark id s)) in
    if includes s.in_stack id
    then some (true, s)
    else if includes s.visited id
    then some (false, s)
    else below
