-- ===== src/Engine/SplitDispatch.antt =====
-- src/engine/split-dispatch.ts: a split is run as a milestone loop or as one round, and its outcome
-- is recorded for the goal's shape. A bound on rounds is a whole number here.
use corellia.Prelude.{
  ℕ, String, Option, none, some, List, [], ◌∷◌, Bool, true, length, if◌then◌else◌, ◌==◌,
}
use corellia.Prelude.Int.{ℤ, pos, negsuc}
use corellia.Prelude.Text.{concat, show_ℤ}
use corellia.Contract.Goal.{Goal}
use corellia.Contract.GoalType.{GoalTypeDef, IterativePolicy}
use corellia.Contract.Decision.{ChildPlan}
use corellia.Contract.Report.{Report}
use corellia.Contract.Events.{Outcome, emitted, pattern_recorded}
use corellia.Engine.World.{World, append_event}
use corellia.Engine.Fallible.{Fallible, returns, and_then}
use corellia.Engine.Reports.{blocked_report}
use corellia.Substrate.PatternStore.{InMemoryPatternStore, record_outcome}

-- What is run may throw.
pub record Dispatch : Type 0 where
  pub now : ℕ → ℕ
  pub goal : Goal
  pub type_def : GoalTypeDef
  pub goal_shape : Option String
  pub run_milestone : List ChildPlan → World → Fallible Report × World
  pub run_split : List ChildPlan → List String → World → Fallible Report × World

pub record DispatchState : Type 0 where
  pub world : World
  pub patterns : Option InMemoryPatternStore

-- `n < 1`
abbrev pub below_one : ℤ → Bool
below_one (pos n) = n == 0
below_one (negsuc n) = true

abbrev pub dispatch_outcome : Report → Outcome
dispatch_outcome r = if length r.blockers == 0 then Outcome.success else Outcome.failure

module _ (d : Dispatch) where
  abbrev pub effective_max_rounds : IterativePolicy → ℤ
  effective_max_rounds policy = elim d.goal.max_rounds [ none ↦ policy.max_rounds | some n ↦ n ]

  unfoldable pub bad_rounds : ℤ → Report
  bad_rounds n =
      blocked_report
        (concat
          ("iterative maxRounds must be an integer >= 1 (effective value " ∷ show_ℤ n ∷ ")" ∷ []))
        [] none

  unfoldable pub execute_as :
      Option IterativePolicy → List ChildPlan → List String → World → Fallible Report × World
  unfolding bad_rounds
  execute_as none children losers w = d.run_split children losers w
  execute_as (some policy) children losers w =
      let report = bad_rounds (effective_max_rounds policy) in
      let looped = d.run_milestone children w in
      if below_one (effective_max_rounds policy)
      then (returns report, append_event d.now d.goal.id (emitted report) w)
      else looped

  unfoldable pub execute_split : List ChildPlan → List String → World → Fallible Report × World
  execute_split children losers w = execute_as d.type_def.iterative children losers w

  -- Without a store or a shape nothing is recorded.
  unfoldable pub record_split_pattern :
      Option InMemoryPatternStore → Option String → List ChildPlan → Report → World → DispatchState
  record_split_pattern none shape children report w = record { world = w; patterns = none }
  record_split_pattern (some store) none children report w = record {
    world = w;
    patterns = some store;
  }
  record_split_pattern (some store) (some shape) children report w = record {
    world = append_event d.now d.goal.id (pattern_recorded shape (dispatch_outcome report)) w;
    patterns = some (record_outcome shape children (dispatch_outcome report) store);
  }

  unfoldable pub run_split_dispatch :
      List ChildPlan → List String → DispatchState → Fallible Report × DispatchState
  run_split_dispatch children losers s =
      let (report, w) = execute_split children losers s.world in
      and_then (report, record s { world = w })
        (λ r s'. (returns r, record_split_pattern s'.patterns d.goal_shape children r s'.world))
