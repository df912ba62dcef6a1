-- ===== src/Engine/SplitRound/RoundReport.antt =====
-- src/engine/split-report.ts: the report of a round, and which children blocked.
use corellia.Prelude.{ℕ, suc, String, Option, none, some, List, [], ◌∷◌, ◌++◌}
use corellia.Prelude.Text.{concat, show}
use corellia.Contract.Goal.{Goal}
use corellia.Contract.Decision.{ChildPlan}
use corellia.Contract.Report.{Artifact, BlockedModule, PartialDelivery, Report}
use corellia.Engine.SplitRound.Promotion.{SplitPromotion}

-- `reports.flatMap((report) => report.blockers)`
unfoldable pub child_blockers_of : List Report → List String
child_blockers_of [] = []
child_blockers_of (r ∷ rs) = r.blockers ++ child_blockers_of rs

unfoldable pub child_findings_of : List Report → List String
child_findings_of [] = []
child_findings_of (r ∷ rs) = r.findings ++ child_findings_of rs

unfoldable pub memories_used_of : List Report → List String
memories_used_of [] = []
memories_used_of (r ∷ rs) = r.memories_used ++ memories_used_of rs

abbrev pub id_at : ℕ → List Goal → String
id_at n [] = concat ("child-" ∷ show n ∷ [])
id_at n (g ∷ gs) = g.id

abbrev pub title_at : List Goal → String
title_at [] = "(unknown module)"
title_at (g ∷ gs) = g.title

abbrev pub rest_of : List Goal → List Goal
rest_of [] = []
rest_of (g ∷ gs) = gs

-- The children from the n-th on that blocked.
unfoldable pub blocked_from : ℕ → List Goal → List Report → List BlockedModule
blocked_from n goals [] = []
blocked_from n goals (r ∷ rs) =
    let later = blocked_from (suc n) (rest_of goals) rs in
    elim r.blockers [
      | [] ↦ later
      | first ∷ more ↦
          record { goal_id = id_at n goals; title = title_at goals; blocker = first } ∷ later
    ]

unfoldable pub build_partial_delivery :
    List Goal → List Report → List String → Option PartialDelivery
build_partial_delivery goals reports child_blockers = elim (blocked_from 0 goals reports) [
  | [] ↦ none
  | m ∷ ms ↦ some (record { blocked_modules = m ∷ ms; child_blockers = child_blockers })
]

-- What the steps after the children add to the report.
pub record RoundParts : Type 0 where
  pub merged_artifact : Option Artifact
  pub promotion : SplitPromotion
  pub extra_findings : List String
  pub integration_findings : List String
  pub integration_blockers : List String
  pub comprehend_findings : List String
  pub comprehend_blockers : List String

unfoldable pub build_split_round_report : List Goal → List Report → RoundParts → Report
build_split_round_report goals reports p = record {
  artifact = p.merged_artifact;
  proof = [];
  lessons = p.promotion.lessons;
  memories_used = memories_used_of reports;
  blockers = p.integration_blockers ++ (p.comprehend_blockers ++ child_blockers_of reports);
  findings =
      p.extra_findings
      ++ (p.integration_findings ++ (p.comprehend_findings ++ child_findings_of reports));
  learned = p.promotion.learned;
  scope_insufficiency = none;
  partial_delivery = build_partial_delivery goals reports (child_blockers_of reports);
}

-- There is a report for each plan.
unfoldable pub child_outcomes : List ChildPlan → List Report → List (ChildPlan × Report)
child_outcomes [] rs = []
child_outcomes (c ∷ cs) [] = []
child_outcomes (c ∷ cs) (r ∷ rs) = (c, r) ∷ child_outcomes cs rs
