-- ===== src/Engine/SplitChildren/Goals.antt =====
-- src/engine/split-children.ts: the goals of the children, and the events that announce them.
use corellia.Prelude.{ℕ, String, none, some, List, [], ◌∷◌, map, length, ◌≡◌, refl, arith}
use corellia.Prelude.Int.{pos}
use corellia.Prelude.Text.{concat}
use corellia.Contract.Goal.{Goal, Budget, MemoryPointer}
use corellia.Contract.Decision.{ChildPlan}
use corellia.Contract.Events.{child_spawned}
use corellia.Engine.World.{World, append_event}
use corellia.Engine.Budget.{subdivide}

-- `memory.query(child.title, child.scope, { goalType: child.type })`
abbrev pub Query : Type 0
Query = String → List String → String → List MemoryPointer

abbrev pub child_id : Goal → String → String
child_id parent local_id = concat (parent.id ∷ "/" ∷ local_id ∷ [])

unfoldable pub child_goal : Goal → Query → ChildPlan → Budget → Goal
child_goal parent query child budget = record {
  id = child_id parent child.local_id;
  type = child.type;
  parent_id = some parent.id;
  title = child.title;
  spec = child.spec;
  intent = elim child.intent [ none ↦ parent.intent | some i ↦ i ];
  scope = child.scope;
  budget = budget;
  memories = query child.title child.scope child.type;
  spend_ceiling_usd = parent.spend_ceiling_usd;
  max_rounds = none;
  declared_scripts = none;
  declared_captures = none;
}

abbrev pub one_of_each : Budget
one_of_each = record { attempts = pos 1; tokens = pos 1; tool_calls = pos 1; wall_clock_ms = pos 1 }

-- Each child with its budget, or one of each where there is none.
unfoldable pub child_goals : Goal → Query → List ChildPlan → List Budget → List Goal
unfolding child_goal
child_goals parent query [] budgets = []
child_goals parent query (c ∷ cs) [] =
    child_goal parent query c one_of_each ∷ child_goals parent query cs []
child_goals parent query (c ∷ cs) (b ∷ bs) =
    child_goal parent query c b ∷ child_goals parent query cs bs

unfoldable pub build_split_child_goals : Goal → List ChildPlan → Query → List Goal
unfolding child_goals
build_split_child_goals parent children query =
    child_goals parent query children (subdivide parent.budget (map (λ c. c.budget_share) children))

-- There is a goal for each child.
unfoldable pub append_child_spawned_events :
    (ℕ → ℕ) → Goal → List ChildPlan → List Goal → World → World
append_child_spawned_events now parent [] goals w = w
append_child_spawned_events now parent (c ∷ cs) [] w = w
append_child_spawned_events now parent (c ∷ cs) (g ∷ gs) w =
    append_child_spawned_events now parent cs gs (
      append_event now parent.id (child_spawned g.id c.type (map (child_id parent) c.depends_on)) w)

length-child_goals :
    (parent : Goal) (query : Query) (cs : List ChildPlan) (bs : List Budget)
    → length (child_goals parent query cs bs) ≡ length cs
unfolding child_goals
length-child_goals parent query [] bs = refl
length-child_goals parent query (c ∷ cs) [] = omega (arith, length-child_goals parent query cs [])
length-child_goals parent query (c ∷ cs) (b ∷ bs) =
    omega (arith, length-child_goals parent query cs bs)

pub length-build_split_child_goals :
    (parent : Goal) (cs : List ChildPlan) (query : Query)
    → length (build_split_child_goals parent cs query) ≡ length cs
unfolding build_split_child_goals
length-build_split_child_goals parent cs query =
    length-child_goals parent query cs (subdivide parent.budget (map (λ c. c.budget_share) cs))
