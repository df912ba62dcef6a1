-- ===== src/Engine/Attempt/Examples.antt =====
-- Failed attempts of src/engine/attempt/ on small ladders.
use corellia.Prelude.{
  ℕ, ◌+◌, ◌*◌, ◌≤◌, ◌≡◌, refl, String, Option, none, some, List, [], ◌∷◌, true, false, all, length,
}
use corellia.Prelude.Int.{pos, ◌-ℤ◌}
use corellia.Contract.Goal.{Tier, mid, high, Kind}
use corellia.Contract.GoalType.{DeterministicCheck, GoalTypeDef}
use corellia.Contract.Report.{Artifact, ArtifactKind}
use corellia.Contract.Verdict.{Verdict}
use corellia.Contract.Events.{deterministic_checked}
use corellia.Engine.World.{append_event}
use corellia.Engine.TreeSpend.{debit_tree_state, has_reached_spend_ceiling}
use corellia.Engine.Reports.{blocked_report}
use corellia.Engine.Samples.{clock, small_budget, small_goal, world_of, usage_of, passes, fails}
use corellia.Engine.DeterministicGate.{
  finding_of, run_checks, run_deterministic_gate, run_deterministic_gate-failing,
}
use corellia.Engine.Attempt.State.{AttemptPrior}
use corellia.Engine.Attempt.Failure.{
  Failed, Means, climb, isomorphic_failure, prescribed_repairs, try_repair, resolve_attempt_failure,
}
use corellia.Engine.Attempt.Recheck.{Judge, recheck_judged, recheck_artifact_after_repair}
use corellia.Engine.Attempt.Transition.{
  Finish, tier_index_for, transition_artifact_failure, verdict_with_step_loop_finding,
}
use corellia.Engine.Attempt.Retries.{Again, stop, more, retries_bounded}
use corellia.Engine.Attempt.Gated.{gate_of, recheck_passed}

abbrev some_text : Artifact
some_text = record {
  kind = ArtifactKind.text;
  files = none;
  text = some "done";
  empty_diagnosis = none;
}

abbrev means_of : List Tier → Means
means_of ladder = record {
  now = clock;
  on_brief = none;
  tier_ladder = ladder;
  repair = λ goal artifact prescriptions tier w. (none, w);
  on_ceiling_reached = λ w. (blocked_report "ceiling" [] none, w);
  diagnosis = λ artifact. none;
}

abbrev no_recheck : Finish
no_recheck = record {
  recheck = λ artifact budget tier w.
      (record { passed = false; budget = budget; verdict = none; tier = tier; ceiling = false }, w);
  emit_success = λ artifact w. (blocked_report "none" [] none, w);
}

abbrev timeout : Verdict
timeout = record { pass = false; findings = []; failure_signature = some "step-loop:transport" }

abbrev failed_at : Tier → Option AttemptPrior → Verdict → Option ℕ → Failed
failed_at tier prior verdict index = record {
  goal = small_goal;
  artifact = some_text;
  verdict = verdict;
  budget = small_budget;
  tier = tier;
  tier_index = index;
  prior_attempt = prior;
  salvaged_artifact = none;
}

abbrev timed_out_again : Failed
timed_out_again =
    failed_at high (some (record { artifact = some some_text; verdict = timeout })) timeout (some 0)

abbrev mid_high : List Tier
mid_high = mid ∷ high ∷ []

abbrev first_failure : Failed
first_failure = failed_at mid none fails (some 0)

abbrev second_failure : Failed
second_failure =
    failed_at high (some (record { artifact = some some_text; verdict = fails })) passes (some 1)

first_failure-Again :
    Again {Transcript = String}
      (means_of mid_high)
      no_recheck
      none
      none
      first_failure
      second_failure
unfolding transition_artifact_failure resolve_attempt_failure isomorphic_failure try_repair
    prescribed_repairs climb tier_index_for verdict_with_step_loop_finding
first_failure-Again = record {
  world = world_of 0 none;
  unrepaired = refl;
  next = record {
    budget = small_budget;
    tier = high;
    tier_index = some 1;
    prior_attempt = record { artifact = some some_text; verdict = fails };
    prior_loop_transcript = none;
  };
  retried = refl;
  is_next = record { at_tier = refl; at_index = refl; after = refl };
}

mid_indexed : some 0 ≡ tier_index_for mid_high mid
unfolding tier_index_for
mid_indexed = refl

retries_bounded_example : 1 ≤ 2 * length mid_high + 1
retries_bounded_example =
    retries_bounded {Transcript = String} (means_of mid_high) no_recheck none none 1 first_failure
      second_failure ((refl, tt), (tt, tt)) mid_indexed (more first_failure-Again stop)

abbrev has_text : DeterministicCheck
has_text = record {
  name = "has-text";
  run = λ goal artifact. record { ok = true; detail = ""; prescription = none };
}

abbrev in_scope : DeterministicCheck
in_scope = record {
  name = "in-scope";
  run = λ goal artifact. record { ok = false; detail = "outside"; prescription = none };
}

run_deterministic_gate-failing_example :
    (v : Verdict) × ((run_deterministic_gate clock small_goal none
        (has_text ∷ in_scope ∷ [])
        small_budget
        (world_of 0 none)).0.verdict
      ≡ some v)
    × (v.pass ≡ false)
    × (v.findings ≡ finding_of in_scope (in_scope.run small_goal none) ∷ [])
    × ((run_deterministic_gate clock small_goal none
          (has_text ∷ in_scope ∷ [])
          small_budget
          (world_of 0 none)).0.budget.tool_calls
        ≡ small_budget.tool_calls -ℤ pos 2)
    × ((run_deterministic_gate clock small_goal none
          (has_text ∷ in_scope ∷ [])
          small_budget
          (world_of 0 none)).1.log
        ≡ record { at = 10; goal_id = "g"; body = deterministic_checked v } ∷ [])
run_deterministic_gate-failing_example =
    run_deterministic_gate-failing clock small_goal none has_text (in_scope ∷ []) small_budget
      (world_of 0 none)

abbrev leaf_type : GoalTypeDef
leaf_type = record {
  name = "build";
  kind = Kind.make;
  family = "build";
  leaf_only = true;
  tier = record { default = mid; ladder = mid_high };
  deterministic = has_text ∷ [];
  judge_type = some "critique-code";
  grants = [];
  must_decompose = false;
  gated = false;
  scan = none;
  output_schema = none;
  input_schema = none;
  validate_input = none;
  accepts_free_text = false;
  core = true;
  human_touchpoints = none;
  requires_scope = false;
  mints_acceptance_checks = false;
  iterative = none;
}

abbrev kind_judge : Judge
kind_judge type goal artifact tier w = ((passes, usage_of 1), w)

recheck-passed_text :
    (recheck_artifact_after_repair clock kind_judge leaf_type small_goal some_text small_budget mid
      (world_of 0 none)).0.passed
    ≡ true
unfolding recheck_artifact_after_repair run_deterministic_gate run_checks recheck_judged
    has_reached_spend_ceiling debit_tree_state append_event
recheck-passed_text = refl

recheck_passed_example :
    (all (λ k. (k.run small_goal (some some_text)).ok) leaf_type.deterministic ≡ true)
    × ((type : String)
        → some "critique-code" ≡ some type
        → (kind_judge type small_goal some_text mid (
            gate_of clock kind_judge leaf_type small_goal some_text small_budget mid
              (world_of 0 none))).0.0.pass
          ≡ true)
recheck_passed_example =
    recheck_passed clock kind_judge leaf_type small_goal some_text small_budget mid
      (world_of 0 none) recheck-passed_text
