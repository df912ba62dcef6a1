-- ===== src/Engine/Examples.antt =====
-- Runs of src/engine/ on small goals, budgets and rounds.
use corellia.Prelude.{
  In, ◌↔◌, String, List, ◌+◌, ◌<◌, ◌≡◌, ◌≢◌, refl, none, some, [], ◌∷◌, true, false, length, arith,
}
use corellia.Prelude.Int.{pos}
use corellia.Contract.Report.{Report}
use corellia.Contract.Events.{done}
use corellia.Engine.World.{World}
use corellia.Engine.TreeSpend.{has_reached_spend_ceiling}
use corellia.Engine.Budget.{debit_counts, crossing_once}
use corellia.Engine.Blocking.{ceilings, halt_all, ceiling_logged_once}
use corellia.Engine.Reports.{blocked_report}
use corellia.Engine.Milestone.Outcome.{
  RoundAssessment, IsCounted, is_milestone_done, decide_milestone_outcome,
  with_unmet_acceptance_blockers, unmet_reported, no_criteria_silent,
}
use corellia.Engine.Milestone.Loop.{Rounds}
use corellia.Engine.Milestone.Ends.{Ends}
use corellia.Contract.Json.{Json}
use corellia.Contract.Decision.{ChildPlan}
use corellia.Engine.RepairIntegration.{integration_repair_plan, InScope, repair_plan-InScope}
use corellia.Engine.Samples.{fails, clock, small_budget, small_goal, world_of, passes}

abbrev half_met : RoundAssessment
half_met = record {
  passing_count = 1;
  criteria_total = 2;
  judge_verdict = passes;
  criteria = [];
  check_results =
      record { id = "c1"; ok = true; detail = "" }
      ∷ record { id = "c2"; ok = false; detail = "red" }
      ∷ [];
  diff_digest = [];
}

half_met-IsCounted : IsCounted half_met
half_met-IsCounted = record { total = refl; passing = refl }

abbrev none_stated : RoundAssessment
none_stated = record {
  passing_count = 0;
  criteria_total = 0;
  judge_verdict = passes;
  criteria = [];
  check_results = [];
  diff_digest = [];
}

none_stated-IsCounted : IsCounted none_stated
none_stated-IsCounted = record { total = refl; passing = refl }

-- Rounds in which nothing is delivered, each assessed as half met.
abbrev idle_rounds : Rounds
idle_rounds = record {
  run_round = λ plans w. (
    record { report = blocked_report "round" [] none; merged_artifact = none; child_outcomes = [] },
    record w { tree = record w.tree { spent_usd = w.tree.spent_usd + 1 } },
  );
  re_decide = λ a ref w. (some [], w);
  persist_criteria = λ c w. w;
  commit_round = λ i w. (some "abc", w);
  assess_round = λ c m w. (half_met, w);
  ceiling_once = λ w. w;
  ceiling_report = λ w. (blocked_report "ceiling" [] none, w);
}

half_met-is_milestone_done : is_milestone_done half_met ≡ false
unfolding is_milestone_done
half_met-is_milestone_done = refl

unmet_reported_example :
    1 < length (with_unmet_acceptance_blockers (blocked_report "round" [] none) half_met).blockers
unfolding blocked_report
unmet_reported_example =
    unmet_reported (blocked_report "round" [] none) half_met half_met-IsCounted (ground arith)
      half_met-is_milestone_done

no_criteria_silent_example :
    ((decide_milestone_outcome none_stated (pos 0) 0 0 4).outcome ≢ done)
    × ((with_unmet_acceptance_blockers (blocked_report "round" [] none) none_stated).blockers
        ≡ "round" ∷ [])
unfolding blocked_report
no_criteria_silent_example =
    no_criteria_silent (blocked_report "round" [] none) none_stated (pos 0) 0 0 4
      none_stated-IsCounted refl refl

ceiling_logged_once_example :
    ceilings (halt_all clock none (small_goal ∷ small_goal ∷ []) (world_of 100 none)).log ≡ 1
ceiling_logged_once_example =
    ceiling_logged_once clock none small_goal (small_goal ∷ []) (world_of 100 none) refl

at_ceiling : has_reached_spend_ceiling (world_of 100 none).tree ≡ true
unfolding has_reached_spend_ceiling
at_ceiling = refl

crossing_once_example :
    length
      (debit_counts clock small_goal true (600 ∷ 600 ∷ 5 ∷ []) small_budget (world_of 0 none)).1.log
    ≡ 1
crossing_once_example =
    crossing_once clock small_goal (600 ∷ 600 ∷ 5 ∷ []) 1000 small_budget (world_of 0 none) refl
      (ground arith)

abbrev plan_of : String → List String → ChildPlan
plan_of id scope = record {
  local_id = id;
  type = "implement";
  title = "a part";
  spec = Json.null;
  depends_on = [];
  scope = scope;
  budget_share = 500000;
  intent = none;
}

repair_plan-InScope_example :
    In "src/b"
      (integration_repair_plan small_goal fails
        (plan_of "one" ("src/a" ∷ []) ∷ plan_of "two" ("src/a" ∷ "src/b" ∷ []) ∷ [])).scope
    ↔ InScope "src/b" (plan_of "one" ("src/a" ∷ []) ∷ plan_of "two" ("src/a" ∷ "src/b" ∷ []) ∷ [])
repair_plan-InScope_example =
    repair_plan-InScope small_goal fails
      (plan_of "one" ("src/a" ∷ []) ∷ plan_of "two" ("src/a" ∷ "src/b" ∷ []) ∷ []) "src/b"
