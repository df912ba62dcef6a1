-- ===== src/Engine/SplitAcceptance/GateSpend.antt =====
-- The coverage gate of src/engine/coverage/split-gate.ts leaves the ceiling, and never lowers what
-- is spent, if the knowledge that it is given does not.
use corellia.Prelude.{
  ℕ, ◌≤◌, ◌≡◌, refl, ◌∙◌, String, Option, none, List, [], ◌∷◌, str_eq, if_intro, arith,
}
use corellia.Contract.Goal.{Goal}
use corellia.Contract.Decision.{ChildPlan}
use corellia.Contract.GoalType.{GoalTypeDef}
use corellia.Contract.Knowledge.{KnowledgeArtifact}
use corellia.Contract.Events.{
  EventBody, Checkpoint, Freshness, stale_validated, invalid, knowledge_checked,
}
use corellia.Engine.World.{World, append_event}
use corellia.Engine.Fallible.{Fallible, returns, throws, fallible_intro}
use corellia.Engine.Coverage.Policy.{CoverageArtifact, KnowledgeForCoverage}
use corellia.Engine.Coverage.Checkpoint.{
  KnowledgeGateway, CheckpointResult, and_then, add_validated, add_refresh, full_artifact,
  refresh_missing, verify_artifacts, checkpoint_verify_artifacts,
}
use corellia.Engine.Coverage.SplitGate.{gate_checked_split, run_knowledge_coverage_split_gate}

-- The ceiling stays, and what is spent does not fall.
abbrev pub Later : World → World → Type 0
Later w w' = (w.tree.spent_usd ≤ w'.tree.spent_usd) × (w'.tree.ceiling_usd ≡ w.tree.ceiling_usd)

pub Later-trans : (u v w : World) → Later u v → Later v w → Later u w
Later-trans u v w h k = (omega arith, k.1 ∙ h.1)

pub append-Later :
    (now : ℕ → ℕ) (id : String) (e : EventBody) (v w : World)
    → Later v w
    → Later v (append_event now id e w)
unfolding append_event
append-Later now id e v w h = h

module _ (k : KnowledgeGateway) (root : String) (queries : (w : World) → Later w (k.query root w).1)
    (validates : (x : KnowledgeArtifact) (w : World) → Later w (k.validate x w).1) where
  Kept : World → Fallible CheckpointResult × World → Type 0
  Kept w r = Later w r.1

  throws-Kept : (w : World) (m : String) (v : World) → Later w v → Kept w (throws m, v)
  unfolding Kept
  throws-Kept w m v h = h

  and_then-Kept :
      (f : CheckpointResult → CheckpointResult) (w v : World)
      (r : Fallible CheckpointResult × World)
      → Later w v
      → Kept v r
      → Kept w (and_then f r)
  unfolding Kept
  and_then-Kept f w v (returns r, u) h q = Later-trans w v u h q
  and_then-Kept f w v (throws m, u) h q = Later-trans w v u h q

  verify-Kept :
      (now : ℕ → ℕ) (g : Goal) (sha : String) (c : Option Checkpoint) (xs : List CoverageArtifact)
      (w : World)
      → Kept w (verify_artifacts now k g root sha c xs w)
  unfolding verify_artifacts
  verify-Kept now g sha c [] w = unfold Kept in (omega arith, refl)
  verify-Kept now g sha c (x ∷ xs) w =
      let full = full_artifact now k g root sha c x in
      let w' = (k.validate full w).1 in
      let asked : Later w w' = validates full w in
      let skip = verify-Kept now g sha c xs w in
      let log : Freshness → World =
        λ o. append_event now g.id (knowledge_checked root x.category x.generated_at_sha o c) w' in
      let kept =
        and_then-Kept (add_validated x.category) w (log stale_validated)
          (verify_artifacts now k g root sha c xs (log stale_validated))
          (append-Later now g.id _ w w' asked) (verify-Kept now g sha c xs (log stale_validated)) in
      let renewed =
        and_then-Kept
          (add_refresh x.category
            (k.mint_comprehension (refresh_missing now k g root sha c x ∷ [])))
          w (log invalid) (verify_artifacts now k g root sha c xs (log invalid))
          (append-Later now g.id _ w w' asked) (verify-Kept now g sha c xs (log invalid)) in
      if_intro (Kept w) (str_eq x.generated_at_sha sha) (λ _. skip)
        (λ _.
          fallible_intro (Kept w) (k.validate full w).0 (λ m. throws-Kept w m w' asked)
            (λ ok. if_intro (Kept w) ok (λ _. kept) (λ _. renewed)))

  -- The gate's worlds.
  Guarded : World → Fallible (List ChildPlan) × World → Type 0
  Guarded w r = Later w r.1

  pair-Guarded :
      (w : World) (x : Fallible (List ChildPlan)) (v : World) → Later w v → Guarded w (x, v)
  unfolding Guarded
  pair-Guarded w x v h = h

  module _ (now : ℕ → ℕ) (resolve_type : String → Option GoalTypeDef) (def : GoalTypeDef)
      (g : Goal) where
    gate_checked-Guarded :
        (cs : List ChildPlan) (f : KnowledgeForCoverage) (r : CheckpointResult) (w v : World)
        → Later w v
        → Guarded w (gate_checked_split now k resolve_type def g root cs f r v)
    unfolding gate_checked_split
    gate_checked-Guarded cs f r w v h =
        let logged : (e : EventBody) → Later w (append_event now g.id e v) =
          λ e. append-Later now g.id e w v h in
        search (if_intro (Guarded w), pair-Guarded, logged)

    gate-Guarded :
        (cs : List ChildPlan) (w : World)
        → Guarded w (run_knowledge_coverage_split_gate now k resolve_type def g root cs w)
    unfolding run_knowledge_coverage_split_gate checkpoint_verify_artifacts
    gate-Guarded cs w =
        let w₁ = (k.query root w).1 in
        let asked : Later w w₁ = queries w in
        fallible_intro (Guarded w) (k.query root w).0 (λ m. pair-Guarded w _ w₁ asked)
          (λ f.
            let w₂ = (verify_artifacts now k g root f.head_sha none f.artifacts w₁).1 in
            let verified : Later w w₂ =
              Later-trans w w₁ w₂ asked
                (unfold Kept in verify-Kept now g f.head_sha none f.artifacts w₁) in
            fallible_intro (Guarded w)
              (verify_artifacts now k g root f.head_sha none f.artifacts w₁).0
              (λ m. pair-Guarded w _ w₂ verified) (λ r. gate_checked-Guarded cs f r w w₂ verified))

    pub gate-Later :
        (cs : List ChildPlan) (w : World)
        → Later w (run_knowledge_coverage_split_gate now k resolve_type def g root cs w).1
    gate-Later cs w = unfold Guarded in gate-Guarded cs w
