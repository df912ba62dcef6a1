-- ===== src/Eventlog/Conformance/Examples.antt =====
-- Audits of small logs by src/eventlog/conformance.ts.
use corellia.Prelude.{ℕ, ◌≡◌, ◌≢◌, ◌↔◌, refl, String, none, List, [], ◌∷◌, true, false, arith}
use corellia.Prelude.Int.{pos}
use corellia.Contract.Json.{Json}
use corellia.Contract.Goal.{Goal, Intent}
use corellia.Contract.Verdict.{Verdict}
use corellia.Contract.Goal.{Tier}
use corellia.Contract.Events.{
  EventBody, deterministic_checked, judge_verdict, round_started, worktree_created,
  worktree_collected, branch_pushed, FactoryEvent,
}
use corellia.Engine.World.{World}
use corellia.Engine.Blocking.{ceiling_reached_once}
use corellia.Eventlog.Conformance.Ordering.{check_deterministic_before_judge}
use corellia.Eventlog.Conformance.Gates.{gate_first, check_deterministic_before_judge-gate_first}
use corellia.Eventlog.Conformance.JudgeWrites.{check_no_judge_authored_writes}
use corellia.Eventlog.Conformance.HandsOff.{IsHandsOff, check_no_judge_authored_writes-IsHandsOff}
use corellia.Eventlog.Conformance.Spend.{declared_ceiling, check_spend}
use corellia.Eventlog.Conformance.Overshoot.{overshoot_flagged}
use corellia.Eventlog.Conformance.Worktree.{check_worktree_lifecycle}
use corellia.Eventlog.Conformance.Nesting.{absent, accepts, check_worktree_lifecycle-accepts}
use corellia.Eventlog.Conformance.Check.{
  ConformanceOptions, check_conformance, Conforms, check_conformance-Conforms,
}

abbrev event_of : EventBody → FactoryEvent
event_of body = record { at = 1; goal_id = "g"; body = body }

abbrev passes : Verdict
passes = record { pass = true; findings = []; failure_signature = none }

abbrev log : List FactoryEvent
log =
    event_of (worktree_created "t" "main" "/tmp/t")
    ∷ event_of (round_started 0 40 (pos 60000))
    ∷ event_of (deterministic_checked passes)
    ∷ event_of (judge_verdict "judge-acceptance" passes Tier.mid none)
    ∷ event_of (worktree_collected "t" "main" [])
    ∷ event_of (branch_pushed "t" "main" "origin")
    ∷ []

abbrev no_options : ConformanceOptions
no_options = record { registry = none; resolve_kind = none }

check_conformance-Conforms_example : check_conformance log no_options ≡ [] ↔ Conforms no_options log
check_conformance-Conforms_example = check_conformance-Conforms no_options log

check_worktree_lifecycle-accepts_example :
    check_worktree_lifecycle log ≡ [] ↔ ((tree : String) → accepts tree absent log ≡ true)
check_worktree_lifecycle-accepts_example = check_worktree_lifecycle-accepts log

check_deterministic_before_judge-gate_first_example :
    check_deterministic_before_judge log ≡ [] ↔ ((goal : String) → gate_first goal log ≡ true)
check_deterministic_before_judge-gate_first_example =
    check_deterministic_before_judge-gate_first log

check_no_judge_authored_writes-IsHandsOff_example :
    check_no_judge_authored_writes log none ≡ [] ↔ IsHandsOff none log
check_no_judge_authored_writes-IsHandsOff_example =
    check_no_judge_authored_writes-IsHandsOff none log

abbrev clock : ℕ → ℕ
clock n = n

abbrev a_goal : Goal
a_goal = record {
  id = "g";
  type = "build";
  parent_id = none;
  title = "a goal";
  spec = Json.null;
  intent = Intent.production;
  scope = [];
  budget = record {
    attempts = pos 3;
    tokens = pos 1000;
    tool_calls = pos 10;
    wall_clock_ms = pos 60000;
  };
  memories = [];
  spend_ceiling_usd = none;
  max_rounds = none;
  declared_scripts = none;
  declared_captures = none;
}

abbrev overspent : World
overspent = record {
  tree = record { spent_usd = 120; ceiling_usd = 100; deadline = none; ceiling_emitted = false };
  log = event_of (round_started 0 40 (pos 60000)) ∷ [];
  tick = 10;
}

unstated : declared_ceiling 0 overspent.log ≡ none
unfolding declared_ceiling
unstated = refl

overshoot_flagged_example : check_spend (ceiling_reached_once clock a_goal overspent).log ≢ []
overshoot_flagged_example = overshoot_flagged clock a_goal overspent refl (ground arith) unstated
