-- ===== src/Engine/SplitAcceptance/Climbs.antt =====
-- A turn of src/engine/decision/split-acceptance.ts that goes on leaves more spent, below the ceiling.
use corellia.Prelude.{
  ℕ, ◌≤◌, ◌<◌, ◌≡◌, refl, ◌∙◌, String, Option, none, some, List, false, if_intro, arith,
}
use corellia.Contract.Goal.{Goal, Budget}
use corellia.Contract.Decision.{ChildPlan, Decision, satisfy, split, block}
use corellia.Contract.Verdict.{Verdict}
use corellia.Contract.Events.{judge_verdict}
use corellia.Engine.World.{World, append_event}
use corellia.Engine.Fallible.{Fallible, returns, throws}
use corellia.Engine.TreeSpend.{has_reached_spend_ceiling}
use corellia.Engine.Budget.{debit_attempt}
use corellia.Engine.SplitValidation.Check.{validate_split}
use corellia.Engine.SplitValidation.Shares.{renormalize_shares}
use corellia.Engine.Coverage.Checkpoint.{KnowledgeGateway}
use corellia.Engine.Coverage.SplitGate.{run_knowledge_coverage_split_gate}
use corellia.Engine.SplitAcceptance.GateSpend.{Later, gate-Later}
use corellia.Engine.SplitAcceptance.Verdicts.{
  Acceptance, split_structure_check, invalid_split_structure_verdict, split_plan_artifact,
  split_rubric, judge_split_decision, append_golden_candidate,
}
use corellia.Engine.SplitAcceptance.Turn.{
  AcceptanceResult, Turn, Next, stop, again, debit, re_decide_after_split_failure, after_rejection,
  reject_structure, reject_judged, augment_split_for_coverage, judge_turn, covered_turn,
  validated_turn, decision_turn,
}
use corellia.Engine.SplitAcceptance.Priced.{
  IsPriced, append-tree, debit_attempt-tree, debit-spent, Spends, re_decide-Spends,
}

module _ (a : Acceptance) (priced : IsPriced a) where
  -- The loop goes on below the ceiling only, with more spent.
  unfoldable pub Climbs : ℕ → ℕ → Next → Type 0
  Climbs spent limit (stop r w) = Unit
  Climbs spent limit (again t w) =
      (spent < w.tree.spent_usd) × (w.tree.spent_usd < limit) × (w.tree.ceiling_usd ≡ limit)

  stop-Climbs : (s c : ℕ) (r : AcceptanceResult) (w : World) → Climbs s c (stop r w)
  unfolding Climbs
  stop-Climbs s c r w = tt

  again-Climbs :
      (s c : ℕ) (t : Turn) (w : World)
      → s < w.tree.spent_usd
      → w.tree.ceiling_usd ≡ c
      → has_reached_spend_ceiling w.tree ≡ false
      → Climbs s c (again t w)
  unfolding Climbs has_reached_spend_ceiling
  again-Climbs s c t w more same below = (more, ground arith, same)

  after_rejection-Climbs :
      (s c : ℕ) (cs : List ChildPlan) (v : Verdict) (b : Budget) (w : World)
      → s ≤ w.tree.spent_usd
      → w.tree.ceiling_usd ≡ c
      → Climbs s c (after_rejection a cs v b w)
  unfolding after_rejection
  after_rejection-Climbs s c cs v b w le same =
      let spends : Spends a priced w (re_decide_after_split_failure a cs v w) =
        re_decide-Spends a priced cs v w in
      let more : s < (re_decide_after_split_failure a cs v w).1.tree.spent_usd =
        unfold Spends in omega arith in
      let kept : (re_decide_after_split_failure a cs v w).1.tree.ceiling_usd ≡ c =
        unfold Spends in (spends.0 ∙ same) in
      search (if_intro (Climbs s c), stop-Climbs, again-Climbs)

  -- A debit for an attempt leaves the tree.
  attempt-Climbs :
      (s c : ℕ) (cs : List ChildPlan) (v : Verdict) (g : Goal) (b : Budget) (b' : Budget)
      (w : World)
      → s ≤ w.tree.spent_usd
      → w.tree.ceiling_usd ≡ c
      → Climbs s c (after_rejection a cs v b' (debit_attempt a.now g b w).1)
  attempt-Climbs s c cs v g b b' w le same =
      let kept = debit_attempt-tree a.now g b w in
      after_rejection-Climbs s c cs v b' (debit_attempt a.now g b w).1 (rw kept le) (rw kept same)

  reject_judged-Climbs :
      (s c : ℕ) (cs : List ChildPlan) (v : Verdict) (t : Turn) (w : World)
      → s ≤ w.tree.spent_usd
      → w.tree.ceiling_usd ≡ c
      → Climbs s c (reject_judged a cs v t w)
  unfolding reject_judged
  reject_judged-Climbs s c cs v t w le same =
      let goes =
        attempt-Climbs s c cs v a.goal t.budget (debit_attempt a.now a.goal t.budget w).0 w le
          same in
      search (if_intro (Climbs s c), stop-Climbs, goes)

  reject_structure-Climbs :
      (s c : ℕ) (cs : List ChildPlan) (e : String) (t : Turn) (w : World)
      → s ≤ w.tree.spent_usd
      → w.tree.ceiling_usd ≡ c
      → Climbs s c (reject_structure a cs e t w)
  unfolding reject_structure
  reject_structure-Climbs s c cs e t w le same =
      let w₁ = (debit_attempt a.now a.goal t.budget w).1 in
      let verdict = invalid_split_structure_verdict e in
      let event = judge_verdict split_structure_check verdict a.tier none in
      let kept : (append_event a.now a.goal.id event w₁).tree ≡ w.tree =
        append-tree a.now a.goal.id event w₁ ∙ debit_attempt-tree a.now a.goal t.budget w in
      let goes =
        after_rejection-Climbs s c cs verdict (debit_attempt a.now a.goal t.budget w).0
          (append_event a.now a.goal.id event w₁) (rw kept le) (rw kept same) in
      search (if_intro (Climbs s c), stop-Climbs, goes)

  golden-tree :
      (plan rubric : String) (v : Verdict) (w : World)
      → (append_golden_candidate a plan rubric v w).tree ≡ w.tree
  unfolding append_golden_candidate append_event
  golden-tree plan rubric v w = ground arith

  judged-Later : (cs : List ChildPlan) (w : World) → Later w (judge_split_decision a cs w).1
  unfolding judge_split_decision
  judged-Later cs w =
      let judged = priced.judges a.goal (split_plan_artifact a cs) (split_rubric a) a.tier w in
      let kept : (judge_split_decision a cs w).1.tree
          ≡ (a.judge a.goal (split_plan_artifact a cs) (split_rubric a) a.tier w).1.tree =
        golden-tree _ _ _ _ ∙ append-tree _ _ _ _ in
      rw kept judged

  judge_turn-Climbs :
      (s c : ℕ) (cs : List ChildPlan) (t : Turn) (w : World)
      → s ≤ w.tree.spent_usd
      → w.tree.ceiling_usd ≡ c
      → Climbs s c (judge_turn a cs t w)
  unfolding judge_turn
  judge_turn-Climbs s c cs t w le same =
      let w₁ = (judge_split_decision a cs w).1 in
      let usage = (judge_split_decision a cs w).0.1 in
      let later : Later w w₁ = judged-Later cs w in
      let paid = debit-spent a usage w₁ in
      let le' : s ≤ (debit a usage w₁).tree.spent_usd = omega arith in
      let same' : (debit a usage w₁).tree.ceiling_usd ≡ c = paid.1 ∙ later.1 ∙ same in
      let goes =
        reject_judged-Climbs s c cs (judge_split_decision a cs w).0.0 t (debit a usage w₁) le'
          same' in
      search (if_intro (Climbs s c), stop-Climbs, goes)

  covered_turn-Climbs :
      (s c : ℕ) (r : Fallible (List ChildPlan)) (t : Turn) (w : World)
      → s ≤ w.tree.spent_usd
      → w.tree.ceiling_usd ≡ c
      → Climbs s c (covered_turn a r t w)
  unfolding covered_turn
  covered_turn-Climbs s c (returns cs) t w le same = judge_turn-Climbs s c cs t w le same
  covered_turn-Climbs s c (throws m) t w le same = stop-Climbs s c _ _

  augment-Later : (cs : List ChildPlan) (w : World) → Later w (augment_split_for_coverage a cs w).1
  unfolding augment_split_for_coverage
  augment-Later cs w = go a.knowledge a.repo_root (λ k e. e)
    where
      go :
          (k : Option KnowledgeGateway) (r : Option String)
          → ((g : KnowledgeGateway) → k ≡ some g → a.knowledge ≡ some g)
          → Later w
              (elim k as (λ _. Fallible (List ChildPlan) × World) [
                | none ↦ (returns cs, w)
                | some gateway ↦ elim r as (λ _. Fallible (List ChildPlan) × World) [
                  | none ↦ (returns cs, w)
                  | some root ↦
                      run_knowledge_coverage_split_gate a.now gateway a.resolve_type a.type_def
                        a.goal root cs w
                ]
              ]).1
      go none r e = (omega arith, refl)
      go (some gateway) none e = (omega arith, refl)
      go (some gateway) (some root) e =
          gate-Later gateway root (λ v. priced.queries gateway root v (e gateway refl))
            (λ x v. priced.validates gateway x v (e gateway refl)) a.now a.resolve_type a.type_def
            a.goal cs w

  validated_turn-Climbs :
      (s c : ℕ) (r : Option String) (cs : List ChildPlan) (t : Turn) (w : World)
      → s ≤ w.tree.spent_usd
      → w.tree.ceiling_usd ≡ c
      → Climbs s c (validated_turn a r cs t w)
  unfolding validated_turn
  validated_turn-Climbs s c (some e) cs t w le same = reject_structure-Climbs s c cs e t w le same
  validated_turn-Climbs s c none cs t w le same =
      let later = augment-Later cs w in
      covered_turn-Climbs s c (augment_split_for_coverage a cs w).0 t
        (augment_split_for_coverage a cs w).1 (omega arith) (later.1 ∙ same)

  pub decision_turn-Climbs :
      (d : Decision) (t : Turn) (w : World)
      → Climbs w.tree.spent_usd w.tree.ceiling_usd (decision_turn a d t w)
  unfolding decision_turn
  decision_turn-Climbs satisfy t w = stop-Climbs _ _ _ w
  decision_turn-Climbs (block brief) t w = stop-Climbs _ _ _ w
  decision_turn-Climbs (split cs) t w =
      validated_turn-Climbs w.tree.spent_usd w.tree.ceiling_usd
        (validate_split (renormalize_shares cs) (some a.resolve_type)) (renormalize_shares cs) t w
        (omega arith) refl
