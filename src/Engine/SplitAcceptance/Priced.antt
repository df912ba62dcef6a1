-- ===== src/Engine/SplitAcceptance/Priced.antt =====
-- What src/engine/decision/split-acceptance.ts spends on the answers of the decider.
use corellia.Prelude.{ℕ, ◌+◌, ◌<◌, ◌≡◌, refl, ◌∙◌, String, some, List, [], ◌∷◌, if_intro, arith}
use corellia.Contract.Goal.{Goal, Budget, Tier, Usage}
use corellia.Contract.Decision.{ChildPlan, Decision}
use corellia.Contract.Knowledge.{KnowledgeArtifact}
use corellia.Contract.Verdict.{Verdict}
use corellia.Contract.Report.{Artifact}
use corellia.Contract.Events.{EventBody}
use corellia.Engine.World.{World, append_event}
use corellia.Engine.TreeSpend.{total_cost, debit_tree_state}
use corellia.Engine.Budget.{debit_attempt}
use corellia.Engine.Coverage.Checkpoint.{KnowledgeGateway}
use corellia.Engine.SplitAcceptance.GateSpend.{Later}
use corellia.Engine.SplitAcceptance.Verdicts.{Acceptance, DecideContext}
use corellia.Engine.SplitAcceptance.Turn.{debit, ask, re_decide_after_split_failure}

-- What the loop relies on: each answer of the decider costs something, and the decider, the judge
-- and the knowledge leave the ceiling and never lower what is spent.
pub record IsPriced (a : Acceptance) : Type 0 where
  pub costs :
      (g : Goal) (c : DecideContext) (w : World) → 0 < total_cost ((a.decide g c w).0.1 ∷ [])
  pub decides : (g : Goal) (c : DecideContext) (w : World) → Later w (a.decide g c w).1
  pub judges :
      (g : Goal) (x : Artifact) (rubric : String) (t : Tier) (w : World)
      → Later w (a.judge g x rubric t w).1
  pub queries :
      (k : KnowledgeGateway) (root : String) (w : World)
      → a.knowledge ≡ some k
      → Later w (k.query root w).1
  pub validates :
      (k : KnowledgeGateway) (x : KnowledgeArtifact) (w : World)
      → a.knowledge ≡ some k
      → Later w (k.validate x w).1

pub append-tree :
    (now : ℕ → ℕ) (id : String) (e : EventBody) (w : World)
    → (append_event now id e w).tree ≡ w.tree
unfolding append_event
append-tree now id e w = refl

pub debit_attempt-tree :
    (now : ℕ → ℕ) (g : Goal) (b : Budget) (w : World) → (debit_attempt now g b w).1.tree ≡ w.tree
unfolding debit_attempt append_event
debit_attempt-tree now g b w = ground arith

pub debit-spent :
    (a : Acceptance) (u : Usage) (w : World)
    → ((debit a u w).tree.spent_usd ≡ w.tree.spent_usd + total_cost (u ∷ []))
      × ((debit a u w).tree.ceiling_usd ≡ w.tree.ceiling_usd)
unfolding debit_tree_state
debit-spent a u w = ground arith

module _ (a : Acceptance) (priced : IsPriced a) where
  -- An answer leaves more spent than before.
  unfoldable pub Spends : World → (Decision × Usage) × World → Type 0
  Spends w r = (r.1.tree.ceiling_usd ≡ w.tree.ceiling_usd) × (w.tree.spent_usd < r.1.tree.spent_usd)

  pub ask-Spends : (c : DecideContext) (w : World) → Spends w (ask a c w)
  unfolding ask Spends
  ask-Spends c w =
      let paid = debit-spent a (a.decide a.goal c w).0.1 (a.decide a.goal c w).1 in
      let cost = priced.costs a.goal c w in
      let later = priced.decides a.goal c w in (paid.1 ∙ later.1, omega arith)

  ask_twice-Spends : (c d : DecideContext) (w : World) → Spends w (ask a d (ask a c w).1)
  ask_twice-Spends c d w =
      let first = ask-Spends c w in
      let then_more = ask-Spends d (ask a c w).1 in
      unfold Spends in (then_more.0 ∙ first.0, omega arith)

  pub re_decide-Spends :
      (cs : List ChildPlan) (v : Verdict) (w : World)
      → Spends w (re_decide_after_split_failure a cs v w)
  unfolding re_decide_after_split_failure
  re_decide-Spends cs v w = search (if_intro (Spends w), ask-Spends, ask_twice-Spends)
