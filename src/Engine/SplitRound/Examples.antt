-- ===== src/Engine/SplitRound/Examples.antt =====
-- A round of one child whose integration is repaired once, and lessons for two stores.
use corellia.Prelude.{
  ◌≡◌, refl, none, some, List, [], ◌∷◌, true, false, length, ◌==◌, if◌then◌else◌,
}
use corellia.Prelude.Text.{after, skip_spaces, is_space, lower}
use corellia.Contract.Goal.{Tier}
use corellia.Contract.Report.{Artifact, ArtifactKind, Report}
use corellia.Contract.Verdict.{Verdict, Dimension, Severity}
use corellia.Contract.Events.{FactoryEvent}
use corellia.Engine.World.{append_event}
use corellia.Engine.Fallible.{Fallible, returns, throws, and_then}
use corellia.Engine.Budget.{subdivide}
use corellia.Engine.Samples.{clock, small_goal, world_of, usage_of, passes}
use corellia.Engine.RepairIntegration.{is_repairable_integration_verdict}
use corellia.Engine.SplitChildren.Goals.{
  build_split_child_goals, child_goals, append_child_spawned_events,
}
use corellia.Engine.SplitSamples.{implement_type, plan}
use corellia.Engine.SplitRound.Layer.{choose_memory_layer}
use corellia.Engine.SplitRound.Promotion.{
  Stores, apart, promote_child_reports, promote_each, write_lessons, write_lesson, append_shared,
  append_both, reinforce,
}
use corellia.Engine.SplitRound.Promoted.{Routed, promoted-Routed}
use corellia.Engine.SplitRound.Merge.{
  Comprehension, comprehend_merge_type, merge_as, merge_comprehend_child_artifacts,
  merge_generic_child_artifacts,
}
use corellia.Engine.SplitRound.Judge.{
  Integrator, judge_split_integration, judged_integration, judgment_of, capture_integration,
  passed_judgment, failed_judgment,
}
use corellia.Engine.SplitRound.RoundReport.{build_split_round_report, child_blockers_of}
use corellia.Engine.SplitRound.Refresh.{refresh_drifted_knowledge_before_integrate}
use corellia.Engine.SplitRound.Integrate.{
  Integration, merged_artifact_of, integrate_and_judge, repair_and_judge_again, repair_integration,
  apply_repair, integrate_with_repair,
}
use corellia.Engine.SplitRound.Close.{
  SplitRoundResult, RoundState, close_round, integrate_round, report_round,
}
use corellia.Engine.SplitRound.Earned.{IsEarned, close_round-IsEarned}

abbrev made : Artifact
made = record { kind = ArtifactKind.text; files = none; text = some "done"; empty_diagnosis = none }

abbrev reported : Report
reported = record {
  artifact = some made;
  proof = [];
  lessons = "[global] sign the release" ∷ "the port is 80" ∷ [];
  memories_used = "m" ∷ [];
  blockers = [];
  findings = [];
  learned = "";
  scope_insufficiency = none;
  partial_delivery = none;
}

abbrev seam : Verdict
seam = record {
  pass = false;
  findings =
      record {
        title = "seam";
        dimension = Dimension.spec;
        severity = Severity.high;
        gating = true;
        prescription = none;
        escalated = false;
      }
      ∷ [];
  failure_signature = none;
}

-- A judge that passes what was repaired: until then the log is empty.
abbrev integrator : Integrator
integrator = record {
  now = clock;
  goal = small_goal;
  tier = Tier.low;
  has_judge_integration = true;
  enrich_rubric = λ base type intent. base;
  judge = λ g a r t ms w. (returns (if length w.log == 0 then seam else passes, usage_of 1), w);
  golden_capture = false;
  artifact_digest = λ a. "";
  sha1 = λ s. s;
  model_by_tier = λ t. none;
}

abbrev integration : Integration
integration = record {
  integrator = integrator;
  query = λ t s k. [];
  run_child = λ g w. (returns reported, w);
  active_repo_root = none;
  checkpoint_knowledge = none;
  worktree_files = none;
}

abbrev comprehension : Comprehension
comprehension = record {
  now = clock;
  goal = small_goal;
  type_def = implement_type;
  active_repo_root = none;
  spec_repo_root = none;
  head_sha = none;
  merge = λ t as' sha. none;
  child_sha_fallback = λ as' t. "";
  persist = λ g a w. (returns tt, w);
}

abbrev stores : Stores
stores = record { world = world_of 0 none; shared = apart [] }

abbrev state : RoundState
state = record { stores = stores; memo = λ r. none }

abbrev closed : Fallible SplitRoundResult × RoundState
closed =
    close_round integration comprehension (plan "a" [] 1000000 ∷ []) (small_goal ∷ [])
      (reported ∷ []) [] state

-- What was returned; a result without a report's contents where nothing was.
abbrev result_of : Fallible SplitRoundResult → SplitRoundResult
result_of (returns r) = r
result_of (throws m) = record {
  report = reported;
  merged_artifact = none;
  passing_count = 0;
  child_outcomes = [];
}

close_round-IsEarned_example :
    IsEarned integration comprehension (reported ∷ []) (result_of closed.0)
unfolding close_round integrate_round report_round and_then merge_comprehend_child_artifacts
    merge_as comprehend_merge_type integrate_with_repair refresh_drifted_knowledge_before_integrate
    integrate_and_judge repair_and_judge_again repair_integration apply_repair merged_artifact_of
    merge_generic_child_artifacts judge_split_integration judged_integration judgment_of
    capture_integration passed_judgment failed_judgment is_repairable_integration_verdict
    build_split_child_goals child_goals append_child_spawned_events append_event subdivide
    build_split_round_report child_blockers_of promote_child_reports
close_round-IsEarned_example =
    close_round-IsEarned integration comprehension (plan "a" [] 1000000 ∷ []) (small_goal ∷ [])
      (reported ∷ []) [] state closed.1 (result_of closed.0) refl refl

-- The round was repaired: the child is announced and the repair recorded, before what is learned.
repaired_first : length closed.1.stores.world.log ≡ 4
unfolding close_round integrate_round report_round and_then merge_comprehend_child_artifacts
    merge_as comprehend_merge_type integrate_with_repair refresh_drifted_knowledge_before_integrate
    integrate_and_judge repair_and_judge_again repair_integration apply_repair merged_artifact_of
    merge_generic_child_artifacts judge_split_integration judged_integration judgment_of
    capture_integration passed_judgment failed_judgment is_repairable_integration_verdict
    build_split_child_goals child_goals append_child_spawned_events append_event subdivide
    promote_child_reports promote_each write_lessons write_lesson append_shared append_both
    reinforce choose_memory_layer skip_spaces is_space lower after
repaired_first = refl

promoted-Routed_example :
    (log : List FactoryEvent) × ((promote_child_reports clock
        (small_goal ∷ [])
        (reported ∷ [])
        stores).1.shared
      ≡ apart log)
    × Routed [] []
        (promote_child_reports clock (small_goal ∷ []) (reported ∷ []) stores).1.world.log
        log
promoted-Routed_example = promoted-Routed clock (small_goal ∷ []) (reported ∷ []) stores [] refl
