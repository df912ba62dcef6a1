-- ===== src/Engine/SplitRound/Judged.antt =====
-- What the judge of src/engine/split-integration.ts passed, through the repair of an integration.
use corellia.Prelude.{
  ◌≡◌, refl, sym, subst, ◌∙◌, String, Option, none, some, List, [], ◌∷◌, true, false, false≢true,
  if_intro, arith,
}
use corellia.Prelude.Text.{concat}
use corellia.Contract.Goal.{Usage}
use corellia.Contract.Decision.{ChildPlan}
use corellia.Contract.Report.{Artifact, Report}
use corellia.Contract.Verdict.{Verdict}
use corellia.Engine.World.{World}
use corellia.Engine.Fallible.{
  Fallible, returns, throws, Holds, Holds-returns, Holds-any, Holds-and_then, Holds-state,
}
use corellia.Engine.SplitRound.Merge.{ComprehendMergeResult}
use corellia.Engine.SplitRound.Judge.{
  Integrator, SplitIntegrationJudgment, passed_judgment, failed_judgment, judgment_of,
  judged_integration, judge_split_integration, integration_rubric, is_terminal_provider_error,
}
use corellia.Engine.SplitRound.Refresh.{Checked}
use corellia.Engine.SplitRound.Integrate.{
  Integration, IntegrateResult, merged_artifact_of, integrate_and_judge, repair_and_judge_again,
  integrate_with_repair,
}

-- The judge was asked about the artifact and let it pass.
abbrev pub PassedBy : Integrator → Artifact → Type 0
PassedBy j a =
    (w : World) × (w' : World) × (v : Verdict) × (u : Usage) × (j.judge j.goal a
        (integration_rubric j) j.tier j.goal.memories w
      ≡ (returns (v, u), w'))
    × (v.pass ≡ true)

-- A judgment without blockers is one of no artifact, or of one that passed.
unfoldable pub Judged : Integrator → Option Artifact → SplitIntegrationJudgment → Type 0
Judged j none judgment = Unit
Judged j (some a) judgment = judgment.blockers ≡ [] → j.has_judge_integration ≡ true → PassedBy j a

pub Judged-passed :
    (j : Integrator) (r : Option Artifact) (a : Artifact) (judgment : SplitIntegrationJudgment)
    → Judged j r judgment
    → r ≡ some a
    → judgment.blockers ≡ []
    → j.has_judge_integration ≡ true
    → PassedBy j a
Judged-passed j r a judgment h e = unfold Judged in subst (λ x. Judged j x judgment) e h

judgment_of-passes : (v : Verdict) → (judgment_of v).blockers ≡ [] → v.pass ≡ true
unfolding judgment_of passed_judgment failed_judgment
judgment_of-passes v h = ground arith

failed-Judged :
    (j : Integrator) (a : Artifact) (reason : String)
    → Judged j (some a) (failed_judgment reason none)
unfolding Judged failed_judgment
failed-Judged j a reason h _ = absurd (ground arith)

judged_integration-Judged :
    (j : Integrator) (a : Artifact) (w : World) (r : Fallible (Verdict × Usage) × World)
    → j.judge j.goal a (integration_rubric j) j.tier j.goal.memories w ≡ r
    → Holds (Judged j (some a)) (judged_integration j a r)
unfolding judged_integration Judged Holds
judged_integration-Judged j a w (returns (v, u), w') e =
    λ h _. (w, w', v, u, e, judgment_of-passes v h)
judged_integration-Judged j a w (throws m, w') e =
    if_intro (Holds (Judged j (some a))) (is_terminal_provider_error m)
      (λ t. failed-Judged j a (concat ("Integration eval could not run: " ∷ m ∷ []))) (λ f. tt)

none-Judged : (j : Integrator) (judgment : SplitIntegrationJudgment) → Judged j none judgment
unfolding Judged
none-Judged j judgment = tt

unjudged_integration-Judged :
    (j : Integrator) (a : Artifact) (judgment : SplitIntegrationJudgment)
    → j.has_judge_integration ≡ false
    → Judged j (some a) judgment
unfolding Judged
unjudged_integration-Judged j a judgment h _ k = absurd (false≢true (sym h ∙ k))

judge-Judged :
    (j : Integrator) (a : Option Artifact) (w : World)
    → Holds (Judged j a) (judge_split_integration j a w)
unfolding judge_split_integration
judge-Judged j none w = Holds-returns (Judged j none) _ w (none-Judged j _)
judge-Judged j (some a) w =
    if_intro (Holds (Judged j (some a))) j.has_judge_integration
      (λ t.
        judged_integration-Judged j a w
          (j.judge j.goal a (integration_rubric j) j.tier j.goal.memories w) refl)
      (λ f. Holds-returns (Judged j (some a)) _ w (unjudged_integration-Judged j a _ f))

-- What is judged is what was merged, as some world has it.
unfoldable pub Integrated :
    Integration → ComprehendMergeResult → List Report → IntegrateResult → Type 0
Integrated i c reports (merged, judgment) =
    Judged i.integrator merged judgment × (w : World) × (merged ≡ merged_artifact_of i c reports w)

module _ (i : Integration) (c : ComprehendMergeResult) (reports : List Report) where
  integrate_and_judge-Integrated :
      (w : World) → Holds (Integrated i c reports) (integrate_and_judge i c reports w)
  unfolding integrate_and_judge Integrated
  integrate_and_judge-Integrated w =
      Holds-and_then (Judged i.integrator (merged_artifact_of i c reports w))
        (Integrated i c reports)
        (judge_split_integration i.integrator (merged_artifact_of i c reports w) w) _
        (judge-Judged i.integrator (merged_artifact_of i c reports w) w)
        (λ judgment w' h. Holds-returns (Integrated i c reports) _ w' (h, w, refl))

  again-Integrated :
      (children : List ChildPlan) (first : IntegrateResult) (w : World)
      → Integrated i c reports first
      → Holds (Integrated i c reports) (repair_and_judge_again i c children reports first w)
  unfolding repair_and_judge_again
  again-Integrated children first w h =
      Holds-and_then (λ _. Unit) (Integrated i c reports) _ _ (Holds-any _)
        (λ repaired w' _.
          if_intro (Holds (Integrated i c reports)) repaired
            (λ t. integrate_and_judge-Integrated w')
            (λ f. Holds-returns (Integrated i c reports) first w' h))

  pub integrate_with_repair-Integrated :
      (children : List ChildPlan) (s : Checked)
      → Holds (Integrated i c reports) (integrate_with_repair i c children reports s)
  unfolding integrate_with_repair
  integrate_with_repair-Integrated children s =
      Holds-and_then (λ _. Unit) (Integrated i c reports) _ _ (Holds-any _)
        (λ _ s₁ _. Holds-state (Integrated i c reports) _ _ (
          Holds-and_then (Integrated i c reports) (Integrated i c reports) _ _
            (integrate_and_judge-Integrated s₁.world) (again-Integrated children)))
