-- ===== src/Engine/SplitRound/Earned.antt =====
-- A round of src/engine/split-round.ts that reports no blocker has earned it.
use corellia.Prelude.{
  ◌≡◌, refl, sym, ◌∙◌, subst, String, Option, none, some, List, [], ◌∷◌, true, All, all,
  append-empty, if_intro, arith,
}
use corellia.Contract.Goal.{Goal}
use corellia.Contract.GoalType.{DeterministicCheck}
use corellia.Contract.Decision.{ChildPlan}
use corellia.Contract.Report.{Artifact, Report}
use corellia.Engine.World.{World}
use corellia.Engine.Fallible.{returns, Holds, Holds-returns, Holds-any, Holds-and_then, Holds-state}
use corellia.Engine.SplitRound.Merge.{
  Comprehension, ComprehendMergeResult, skipped, handled, merge_checks, merge_failed, gate_merged,
  comprehend_merge_type, merge_as, merge_comprehend_child_artifacts,
}
use corellia.Engine.SplitRound.RoundReport.{child_blockers_of, build_split_round_report}
use corellia.Engine.SplitRound.Integrate.{Integration, IntegrateResult, merged_artifact_of}
use corellia.Engine.SplitRound.Close.{
  SplitRoundResult, RoundState, comprehend_blockers, report_round, integrate_round, close_round,
}
use corellia.Engine.SplitRound.Judged.{
  PassedBy, Judged-passed, Integrated, integrate_with_repair-Integrated,
}

-- The artifact meets the checks of the goal's type.
abbrev pub MeetsChecks : Comprehension → Artifact → Type 0
MeetsChecks m a = all (λ k. (k.run m.goal (some a)).ok) m.type_def.deterministic ≡ true

-- A merge is skipped where the type has none; without a blocker its artifact meets the checks.
unfoldable pub Gated : Comprehension → ComprehendMergeResult → Type 0
Gated m skipped = comprehend_merge_type m ≡ none
Gated m (handled none blockers findings) = Unit
Gated m (handled (some a) blockers findings) = blockers ≡ [] → MeetsChecks m a

skipped-Gated : (m : Comprehension) → comprehend_merge_type m ≡ none → Gated m skipped
unfolding Gated
skipped-Gated m h = h

nothing-Gated : (m : Comprehension) → Gated m (handled none [] [])
unfolding Gated
nothing-Gated m = tt

failed-Gated : (m : Comprehension) (findings : List String) → Gated m (merge_failed findings)
unfolding Gated merge_failed
failed-Gated m findings = tt

kept-Gated : (m : Comprehension) (a : Artifact) → MeetsChecks m a → Gated m (handled (some a) [] [])
unfolding Gated
kept-Gated m a ok h = ok

Gated-MeetsChecks :
    (i : Integration) (m : Comprehension) (c : ComprehendMergeResult) (reports : List Report)
    (w : World) (type : String) (a : Artifact)
    → Gated m c
    → comprehend_blockers c ≡ []
    → comprehend_merge_type m ≡ some type
    → merged_artifact_of i c reports w ≡ some a
    → MeetsChecks m a
unfolding Gated merged_artifact_of
Gated-MeetsChecks i m skipped reports w type a gated b t e = absurd (ground arith)
Gated-MeetsChecks i m (handled none bs fs) reports w type a gated b t e = absurd (ground arith)
Gated-MeetsChecks i m (handled (some x) bs fs) reports w type a gated b t e =
    let met = gated b in ground arith

merge_checks-all :
    (goal : Goal) (a : Option Artifact) (cs : List DeterministicCheck)
    → (merge_checks goal a cs).0 ≡ all (λ k. (k.run goal a).ok) cs
unfolding merge_checks
merge_checks-all goal a [] = refl
merge_checks-all goal a (c ∷ cs) = let rest = merge_checks-all goal a cs in ground arith

module _ (m : Comprehension) where
  gate_merged-Gated : (a : Option Artifact) (w : World) → Holds (Gated m) (gate_merged m a w)
  unfolding gate_merged
  gate_merged-Gated none w = Holds-returns (Gated m) _ w (nothing-Gated m)
  gate_merged-Gated (some a) w =
      let checks = merge_checks-all m.goal (some a) m.type_def.deterministic in
      if_intro (Holds (Gated m)) (merge_checks m.goal (some a) m.type_def.deterministic).0
        (λ ok.
          Holds-and_then (λ _. Unit) (Gated m) _ _ (Holds-any _)
            (λ _ w' _. Holds-returns (Gated m) _ w' (kept-Gated m a (sym checks ∙ ok))))
        (λ f. Holds-returns (Gated m) _ _ (failed-Gated m _))

  merge_as-Gated :
      (type : Option String) (reports : List Report) (w : World)
      → comprehend_merge_type m ≡ type
      → Holds (Gated m) (merge_as m type reports w)
  unfolding merge_as
  merge_as-Gated none reports w h = Holds-returns (Gated m) skipped w (skipped-Gated m h)
  merge_as-Gated (some type) reports w h = gate_merged-Gated _ w

  merge-Gated :
      (reports : List Report) (w : World)
      → Holds (Gated m) (merge_comprehend_child_artifacts m reports w)
  unfolding merge_comprehend_child_artifacts
  merge-Gated reports w = merge_as-Gated (comprehend_merge_type m) reports w refl

clean_children :
    (reports : List Report) → child_blockers_of reports ≡ [] → All (λ r. r.blockers ≡ []) reports
unfolding child_blockers_of
clean_children [] h = tt
clean_children (r ∷ rs) h =
    let (a, b) = append-empty r.blockers (child_blockers_of rs) h in (a, clean_children rs b)

-- Each child is clean, what was comprehended meets its checks, and the judge passed what was made.
pub record IsEarned (i : Integration) (m : Comprehension) (reports : List Report)
    (result : SplitRoundResult) : Type 0 where
  pub children : All (λ r. r.blockers ≡ []) reports
  pub checked :
      (type : String) (a : Artifact)
      → comprehend_merge_type m ≡ some type
      → result.merged_artifact ≡ some a
      → MeetsChecks m a
  pub judged :
      (a : Artifact)
      → i.integrator.has_judge_integration ≡ true
      → result.merged_artifact ≡ some a
      → PassedBy i.integrator a

unfoldable Earned : Integration → Comprehension → List Report → SplitRoundResult → Type 0
Earned i m reports result = result.report.blockers ≡ [] → IsEarned i m reports result

module _ (i : Integration) (m : Comprehension) (children : List ChildPlan) (goals : List Goal)
    (reports : List Report) (extra : List String) where
  report_round-Earned :
      (c : ComprehendMergeResult) (result : IntegrateResult) (s : RoundState)
      → Gated m c
      → Integrated i c reports result
      → Earned i m reports (report_round i m children goals reports extra c result s).0
  unfolding report_round build_split_round_report Earned Integrated
  report_round-Earned c (merged, judgment) s gated (judged, w, e) h =
      let (a, rest) = append-empty judgment.blockers _ h in
      let (b, clean) = append-empty (comprehend_blockers c) (child_blockers_of reports) rest in
      record {
        children = clean_children reports clean;
        checked = λ type x t q. Gated-MeetsChecks i m c reports w type x gated b t (sym e ∙ q);
        judged = λ x has q. Judged-passed i.integrator merged x judgment judged q a has;
      }

  integrate_round-Earned :
      (c : ComprehendMergeResult) (s : RoundState)
      → Gated m c
      → Holds (Earned i m reports) (integrate_round i m children goals reports extra c s)
  unfolding integrate_round
  integrate_round-Earned c s gated =
      Holds-and_then (Integrated i c reports) (Earned i m reports) _ _
        (Holds-state (Integrated i c reports) _ _
          (integrate_with_repair-Integrated i c reports children _))
        (λ result s' h.
          Holds-returns (Earned i m reports) _ _ (report_round-Earned c result s' gated h))

  close_round-Earned :
      (s : RoundState) → Holds (Earned i m reports) (close_round i m children goals reports extra s)
  unfolding close_round
  close_round-Earned s =
      Holds-and_then (Gated m) (Earned i m reports) _ _
        (Holds-state (Gated m) _ _ (merge-Gated m reports s.stores.world)) integrate_round-Earned

  -- A round that returns a report without a blocker has earned it: every child reported none; an
  -- artifact that was merged from comprehension meets the checks of the goal's type; and where
  -- there is a judge of integrations, it passed the artifact that is returned, if any.
  pub close_round-IsEarned :
      (s s' : RoundState) (result : SplitRoundResult)
      → close_round i m children goals reports extra s ≡ (returns result, s')
      → result.report.blockers ≡ []
      → IsEarned i m reports result
  close_round-IsEarned s s' result h clean =
      unfold Earned Holds in subst (Holds (Earned i m reports)) h (close_round-Earned s) clean
