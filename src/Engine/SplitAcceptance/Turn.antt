-- ===== src/Engine/SplitAcceptance/Turn.antt =====
-- src/engine/decision/split-acceptance.ts: one turn of the loop that accepts a split.
use corellia.Prelude.{
  String, Option, none, some, List, [], ◌∷◌, Bool, true, false, ◌&&◌, not, if◌then◌else◌,
}
use corellia.Prelude.Text.{concat}
use corellia.Contract.Goal.{Budget, Usage}
use corellia.Contract.Decision.{ChildPlan, Decision, satisfy, split, block}
use corellia.Contract.Verdict.{Verdict}
use corellia.Contract.Report.{Artifact, Report}
use corellia.Contract.Events.{decided, emitted, judge_verdict}
use corellia.Engine.World.{World, append_event}
use corellia.Engine.Fallible.{Fallible, returns, throws}
use corellia.Engine.Reports.{blocked_report}
use corellia.Engine.TreeSpend.{debit_tree_state, has_reached_spend_ceiling}
use corellia.Engine.Budget.{debit_attempt}
use corellia.Engine.SplitValidation.Shares.{renormalize_shares}
use corellia.Engine.SplitValidation.Check.{validate_split}
use corellia.Engine.Coverage.SplitGate.{run_knowledge_coverage_split_gate}
use corellia.Engine.SplitAcceptance.Verdicts.{
  Acceptance, DecideContext, split_structure_check, invalid_split_structure_verdict,
  isomorphic_split_failure, rejected_split_satisfy_report, correction_text, split_plan_artifact,
  judge_split_decision,
}

pub data AcceptanceResult : Type 0 where
  accepted : (decision : Decision) (usage : Option Usage) → AcceptanceResult
  emits : (report : Report) → AcceptanceResult
  ceiling : AcceptanceResult

-- The variables of the loop.
pub record Turn : Type 0 where
  pub decision : Decision
  pub usage : Option Usage
  pub budget : Budget
  pub prior : Option Verdict

pub data Next : Type 0 where
  stop : AcceptanceResult → World → Next
  again : Turn → World → Next

abbrev pub is_satisfy : Decision → Bool
is_satisfy satisfy = true
is_satisfy (split children) = false
is_satisfy (block brief) = false

module _ (a : Acceptance) where
  abbrev pub append_decided : Decision → Option Usage → World → World
  append_decided decision usage w = append_event a.now a.goal.id (decided decision usage) w

  abbrev pub append_emitted : Report → World → World
  append_emitted report w = append_event a.now a.goal.id (emitted report) w

  abbrev pub debit : Usage → World → World
  debit usage w = record w { tree = debit_tree_state w.tree usage }

  -- A call of the decider, with its cost debited.
  unfoldable pub ask : DecideContext → World → (Decision × Usage) × World
  ask context w = let (answer, w') = a.decide a.goal context w in (answer, debit answer.1 w')

  abbrev pub prior_of : List ChildPlan → Verdict → Option (Artifact × Verdict)
  prior_of children verdict = some (split_plan_artifact a children, verdict)

  -- A type that must decompose is asked once more when it would satisfy.
  unfoldable pub re_decide_after_split_failure :
      List ChildPlan → Verdict → World → (Decision × Usage) × World
  unfolding ask
  re_decide_after_split_failure children verdict w =
      let (answer, w') =
        ask
          (record {
            tier = a.tier;
            memories = a.goal.memories;
            prior_attempt = prior_of children verdict;
            must_decompose = a.type_def.must_decompose;
            decide_correction = none;
          })
          w in
      let corrected =
        ask
          (record {
            tier = a.tier;
            memories = a.goal.memories;
            prior_attempt = prior_of children verdict;
            must_decompose = true;
            decide_correction = some (correction_text a.goal);
          })
          w' in
      if is_satisfy answer.0 && a.type_def.must_decompose then corrected else (answer, w')

  -- After a rejected split: what is decided next, and whether the loop goes on with it.
  unfoldable pub after_rejection : List ChildPlan → Verdict → Budget → World → Next
  after_rejection children verdict budget w =
      let ((decision, usage), w') = re_decide_after_split_failure children verdict w in
      let report = rejected_split_satisfy_report a.goal in
      if has_reached_spend_ceiling w'.tree
      then stop ceiling (append_decided decision (some usage) w')
      else if is_satisfy decision && a.type_def.must_decompose
      then stop (emits report) (append_emitted report (append_decided decision (some usage) w'))
      else again
          (record {
            decision = decision;
            usage = some usage;
            budget = budget;
            prior = some verdict;
          })
          w'

  unfoldable pub reject_structure : List ChildPlan → String → Turn → World → Next
  unfolding after_rejection
  reject_structure children e t w =
      let verdict = invalid_split_structure_verdict e in
      let (budget, w₁) = debit_attempt a.now a.goal t.budget w in
      let w₂ =
        append_event a.now a.goal.id (judge_verdict split_structure_check verdict a.tier none) w₁ in
      let report =
        blocked_report
          (concat ("Isomorphic split structural failure (signature: invalid-split:" ∷ e ∷ ")" ∷ []))
          [] none in
      if isomorphic_split_failure t.prior verdict
      then stop (emits report) (append_emitted report w₂)
      else after_rejection children verdict budget w₂

  unfoldable pub reject_judged : List ChildPlan → Verdict → Turn → World → Next
  unfolding after_rejection
  reject_judged children verdict t w =
      let (budget, w₁) = debit_attempt a.now a.goal t.budget w in
      let sig : String = elim verdict.failure_signature [ none ↦ "unsignatured" | some s ↦ s ] in
      let report =
        blocked_report (concat ("Isomorphic split failure (signature: " ∷ sig ∷ ")" ∷ [])) []
          none in
      if isomorphic_split_failure t.prior verdict
      then stop (emits report) (append_emitted report (append_decided (split children) t.usage w₁))
      else after_rejection children verdict budget w₁

  -- The coverage gate, where there is knowledge of a repository.
  unfoldable pub augment_split_for_coverage :
      List ChildPlan → World → Fallible (List ChildPlan) × World
  augment_split_for_coverage children w = elim a.knowledge [
    | none ↦ (returns children, w)
    | some gateway ↦ elim a.repo_root [
      | none ↦ (returns children, w)
      | some root ↦
          run_knowledge_coverage_split_gate a.now gateway a.resolve_type a.type_def a.goal root
            children w
    ]
  ]

  unfoldable pub judge_turn : List ChildPlan → Turn → World → Next
  unfolding reject_judged
  judge_turn children t w =
      let ((verdict, usage), w₁) = judge_split_decision a children w in
      let w₂ = debit usage w₁ in
      let done = stop (accepted (split children) t.usage) in
      if not a.has_judge_split
      then done w
      else if has_reached_spend_ceiling w₂.tree
      then stop ceiling w₂
      else if verdict.pass
      then done w₂
      else reject_judged children verdict t w₂

  -- After the gate, whose error is a report.
  unfoldable pub covered_turn : Fallible (List ChildPlan) → Turn → World → Next
  unfolding judge_turn
  covered_turn (returns children) t w = judge_turn children t w
  covered_turn (throws m) t w =
      let report =
        blocked_report
          (concat ("Split structural validation failed after coverage injection: " ∷ m ∷ [])) []
          none in
      stop (emits report) (append_emitted report w)

  -- After the validation, with its error if there is one.
  unfoldable pub validated_turn : Option String → List ChildPlan → Turn → World → Next
  unfolding augment_split_for_coverage covered_turn
  validated_turn (some e) children t w = reject_structure children e t w
  validated_turn none children t w =
      let (augmented, w') = augment_split_for_coverage children w in covered_turn augmented t w'

  -- The loop goes on while the decision is a split.
  unfoldable pub decision_turn : Decision → Turn → World → Next
  unfolding validated_turn
  decision_turn satisfy t w = stop (accepted satisfy t.usage) w
  decision_turn (block brief) t w = stop (accepted (block brief) t.usage) w
  decision_turn (split children) t w =
      let scaled = renormalize_shares children in
      validated_turn (validate_split scaled (some a.resolve_type)) scaled t w

  unfoldable pub turn : Turn → World → Next
  unfolding decision_turn
  turn t w = decision_turn t.decision t w
