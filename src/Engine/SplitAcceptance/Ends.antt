-- ===== src/Engine/SplitAcceptance/Ends.antt =====
-- The loop of src/engine/decision/split-acceptance.ts ends, by the ceiling of the tree at the latest.
use corellia.Prelude.{ℕ, zero, suc, ◌-◌, ◌<◌, ◌≢◌, Option, none, some, List, if_intro, arith}
use corellia.Contract.Goal.{Usage}
use corellia.Contract.Decision.{ChildPlan}
use corellia.Engine.World.{World}
use corellia.Engine.SplitAcceptance.Verdicts.{Acceptance}
use corellia.Engine.SplitAcceptance.Turn.{AcceptanceResult, Turn, Next, stop, again, turn}
use corellia.Engine.SplitAcceptance.Loop.{accept_loop, accept_split_decision}
use corellia.Engine.SplitAcceptance.Priced.{IsPriced}
use corellia.Engine.SplitAcceptance.Climbs.{Climbs, decision_turn-Climbs}

module _ (a : Acceptance) (priced : IsPriced a) where
  accept_loop_ends :
      (fuel : ℕ) (t : Turn) (w : World)
      → w.tree.ceiling_usd - w.tree.spent_usd < fuel
      → accept_loop a fuel t w ≢ none
  unfolding accept_loop Climbs
  accept_loop_ends zero t w h = absurd (omega arith)
  accept_loop_ends (suc fuel) t w h =
      ends (turn a t w) (unfold turn in decision_turn-Climbs a priced t.decision t w)
        (λ t' w' k. accept_loop_ends fuel t' w' k)
    where
      ends :
          (n : Next)
          → Climbs a priced w.tree.spent_usd w.tree.ceiling_usd n
          → ((t' : Turn) (w' : World)
              → w'.tree.ceiling_usd - w'.tree.spent_usd < fuel
              → accept_loop a fuel t' w' ≢ none)
          → (elim n as (λ _. Option (AcceptanceResult × World)) [
            | stop result w' ↦ some (result, w')
            | again t' w' ↦ accept_loop a fuel t' w'
          ])
            ≢ none
      ends (stop result w') c k = λ e. cc
      ends (again t' w') c k = k t' w' (omega arith)

  -- A result.
  IsBack : Option (AcceptanceResult × World) → Type 0
  IsBack r = r ≢ none

  some-IsBack : (r : AcceptanceResult × World) → IsBack (some r)
  unfolding IsBack
  some-IsBack r e = cc

  loop-IsBack :
      (fuel : ℕ) (t : Turn) (w : World)
      → w.tree.ceiling_usd - w.tree.spent_usd < fuel
      → IsBack (accept_loop a fuel t w)
  unfolding IsBack
  loop-IsBack fuel t w h = accept_loop_ends fuel t w h

  accept_split_decision-IsBack :
      (fuel : ℕ) (children : List ChildPlan) (usage : Option Usage) (w : World)
      → w.tree.ceiling_usd - w.tree.spent_usd < fuel
      → IsBack (accept_split_decision a fuel children usage w)
  unfolding accept_split_decision
  accept_split_decision-IsBack fuel children usage w h =
      search (if_intro IsBack, some-IsBack, loop-IsBack)

  -- When each answer of the decider costs something, and decider, judge and knowledge keep the tree's
  -- ceiling and never lower its spend, the acceptance of a split returns within one turn more than
  -- the millionths that the tree may still spend.
  pub accept_split_decision_ends :
      (fuel : ℕ) (children : List ChildPlan) (usage : Option Usage) (w : World)
      → w.tree.ceiling_usd - w.tree.spent_usd < fuel
      → accept_split_decision a fuel children usage w ≢ none
  accept_split_decision_ends fuel children usage w h =
      unfold IsBack in accept_split_decision-IsBack fuel children usage w h
