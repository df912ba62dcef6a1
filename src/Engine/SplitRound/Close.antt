-- ===== src/Engine/SplitRound/Close.antt =====
-- src/engine/split-round.ts, `runSplitRound`, from where all children have reported.
use corellia.Prelude.{ℕ, List, [], String, Option}
use corellia.Contract.Goal.{Goal}
use corellia.Contract.Decision.{ChildPlan}
use corellia.Contract.Report.{Artifact, Report}
use corellia.Engine.Fallible.{Fallible, returns, and_then}
use corellia.Engine.SplitRound.Promotion.{Stores, promote_child_reports}
use corellia.Engine.SplitRound.Merge.{
  Comprehension, ComprehendMergeResult, skipped, handled, merge_comprehend_child_artifacts,
}
use corellia.Engine.SplitRound.RoundReport.{build_split_round_report, child_outcomes}
use corellia.Engine.SplitRound.Refresh.{Checked, CheckpointShaMemo}
use corellia.Engine.SplitRound.Integrate.{Integration, IntegrateResult, integrate_with_repair}

pub record SplitRoundResult : Type 0 where
  pub report : Report
  pub merged_artifact : Option Artifact
  pub passing_count : ℕ
  pub child_outcomes : List (ChildPlan × Report)

-- The stores, and what the tree's checkpoints remember.
pub record RoundState : Type 0 where
  pub stores : Stores
  pub memo : CheckpointShaMemo

abbrev pub comprehend_findings : ComprehendMergeResult → List String
comprehend_findings skipped = []
comprehend_findings (handled merged blockers findings) = findings

abbrev pub comprehend_blockers : ComprehendMergeResult → List String
comprehend_blockers skipped = []
comprehend_blockers (handled merged blockers findings) = blockers

-- A call that changes the project's store and the checkpoints.
abbrev pub in_project : {A : Type 0} → RoundState → A × Checked → A × RoundState
in_project s (a, c) = (a, record { stores = record s.stores { world = c.world }; memo = c.memo })

abbrev pub checked_of : RoundState → Checked
checked_of s = record { memo = s.memo; world = s.stores.world }

module _ (i : Integration) (m : Comprehension) where
  unfoldable pub report_round :
      List ChildPlan
      → List Goal
      → List Report
      → List String
      → ComprehendMergeResult
      → IntegrateResult
      → RoundState
      → SplitRoundResult × RoundState
  report_round children goals reports extra c (merged, judgment) s =
      let (promotion, stores) = promote_child_reports i.integrator.now goals reports s.stores in
      (
        record {
          report = build_split_round_report goals reports (record {
            merged_artifact = merged;
            promotion = promotion;
            extra_findings = extra;
            integration_findings = judgment.findings;
            integration_blockers = judgment.blockers;
            comprehend_findings = comprehend_findings c;
            comprehend_blockers = comprehend_blockers c;
          });
          merged_artifact = merged;
          passing_count = 0;
          child_outcomes = child_outcomes children reports;
        },
        record s { stores = stores },
      )

  -- The integration and the report, after the merge of what was comprehended.
  unfoldable pub integrate_round :
      List ChildPlan
      → List Goal
      → List Report
      → List String
      → ComprehendMergeResult
      → RoundState
      → Fallible SplitRoundResult × RoundState
  integrate_round children goals reports extra c s =
      and_then (in_project s (integrate_with_repair i c children reports (checked_of s)))
        (λ result s'.
          let (closed, s'') = report_round children goals reports extra c result s' in
          (returns closed, s''))

  unfoldable pub close_round :
      List ChildPlan
      → List Goal
      → List Report
      → List String
      → RoundState
      → Fallible SplitRoundResult × RoundState
  close_round children goals reports extra s =
      let (merge, w) = merge_comprehend_child_artifacts m reports s.stores.world in
      and_then (merge, record s { stores = record s.stores { world = w } })
        (integrate_round children goals reports extra)
