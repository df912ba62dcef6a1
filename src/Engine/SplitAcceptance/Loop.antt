-- ===== src/Engine/SplitAcceptance/Loop.antt =====
-- src/engine/decision/split-acceptance.ts: the loop of `acceptSplitDecision`. The fuel is the number
-- of turns, and none means that it ran out.
use corellia.Prelude.{ℕ, zero, suc, Option, none, some, List, [], ◌∷◌, if◌then◌else◌}
use corellia.Prelude.Text.{concat}
use corellia.Contract.Goal.{Usage}
use corellia.Contract.Decision.{ChildPlan, split}
use corellia.Engine.World.{World}
use corellia.Engine.Reports.{blocked_report}
use corellia.Engine.SplitAcceptance.Verdicts.{Acceptance}
use corellia.Engine.SplitAcceptance.Turn.{
  AcceptanceResult, emits, Turn, stop, again, append_decided, append_emitted, turn,
}

module _ (a : Acceptance) where
  unfoldable pub accept_loop : ℕ → Turn → World → Option (AcceptanceResult × World)
  accept_loop zero t w = none
  accept_loop (suc fuel) t w = elim (turn a t w) [
    | stop result w' ↦ some (result, w')
    | again t' w' ↦ accept_loop fuel t' w'
  ]

  unfoldable pub accept_split_decision :
      ℕ → List ChildPlan → Option Usage → World → Option (AcceptanceResult × World)
  unfolding accept_loop
  accept_split_decision fuel children usage w =
      let report =
        blocked_report
          (concat
            ("Type \"" ∷ a.goal.type ∷ "\" is leafOnly but brain returned a split decision" ∷ []))
          [] none in
      let looped =
        accept_loop fuel
          (record {
            decision = split children;
            usage = usage;
            budget = a.goal.budget;
            prior = none;
          })
          w in
      if a.type_def.leaf_only
      then some (emits report, append_emitted a report (append_decided a (split children) none w))
      else looped
