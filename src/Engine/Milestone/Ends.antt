-- ===== src/Engine/Milestone/Ends.antt =====
-- How the loop of src/engine/milestone/loop.ts ends.
use corellia.Prelude.{ℕ, ◌+◌, ◌<◌, ◌≡◌, ◌≢◌, ◌⊎◌, Option, none, some, true, false}
use corellia.Contract.Goal.{Goal}
use corellia.Contract.Report.{Report}
use corellia.Contract.Events.{MilestoneOutcome, done, emitted}
use corellia.Engine.World.{World, append_event}
use corellia.Engine.TreeSpend.{has_reached_spend_ceiling, has_reached_tree_deadline}
use corellia.Engine.Milestone.Outcome.{RoundAssessment, is_milestone_done}
use corellia.Engine.Milestone.Loop.{Rounds, LoopState, Turn, return, break, again, final_report}

-- The outcome is `done` exactly when the last assessment meets all criteria.
abbrev pub IsJudged : MilestoneOutcome → LoopState → Type 0
IsJudged outcome s =
    (a : RoundAssessment) × (s.last_assessment ≡ some a)
    × (outcome ≡ done → is_milestone_done a ≡ true)
    × (outcome ≢ done → is_milestone_done a ≡ false)

abbrev IsUnmet : LoopState → Type 0
IsUnmet s = (a : RoundAssessment) × (s.last_assessment ≡ some a) × (is_milestone_done a ≡ false)

module _ (now : ℕ → ℕ) (goal : Goal) (max_rounds : ℕ) (fs : Rounds) where
  -- A turn at round `i` that does not return.
  abbrev Goes : ℕ → Turn → Type 0
  Goes i (return report w) = ⊥
  Goes i (break outcome s w) = IsJudged outcome s
  Goes i (again s w) = IsUnmet s × (s.round_index ≡ i + 1) × (s.round_index < max_rounds)

  -- The tree's own limits, read as a turn reads them.
  abbrev pub AtLimit : World → Type 0
  AtLimit w =
      (has_reached_spend_ceiling w.tree ≡ true)
      ⊎ (has_reached_tree_deadline w.tree (now w.tick) ≡ true)

  abbrev Returns : Turn → Type 0
  Returns (return report w) = Unit
  Returns _ = ⊥

  -- The loop is over: its report is emitted last, and the outcome agrees with the last assessment.
  pub record IsFinished (report : Report) (w : World) : Type 0 where
    pub outcome : MilestoneOutcome
    pub state : LoopState
    pub before : World
    pub reported : report ≡ final_report outcome state
    pub logged : w ≡ append_event now goal.id (emitted report) before
    pub judged : IsJudged outcome state

  abbrev pub Ends : Option (Report × World) → Type 0
  Ends none = ⊥
  Ends (some (report, w)) = IsFinished report w
