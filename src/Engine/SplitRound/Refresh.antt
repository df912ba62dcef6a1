-- ===== src/Engine/SplitRound/Refresh.antt =====
-- src/engine/checkpoint-verify.ts and src/engine/integrate-checkpoint.ts: knowledge that HEAD has
-- left behind is learned again before the integration is judged.
use corellia.Prelude.{
  ℕ, String, Option, none, some, List, [], ◌∷◌, Bool, false, str_eq, if◌then◌else◌, length, ◌==◌,
}
use corellia.Contract.Goal.{Goal}
use corellia.Contract.Decision.{ChildPlan}
use corellia.Contract.Report.{Report}
use corellia.Contract.Events.{Checkpoint}
use corellia.Engine.World.{World}
use corellia.Engine.Fallible.{Fallible, returns, and_then}
use corellia.Engine.Coverage.Checkpoint.{KnowledgeGateway, checkpoint_verify_artifacts}
use corellia.Engine.SplitChildren.Goals.{
  Query, build_split_child_goals, append_child_spawned_events,
}

-- The knowledge, and the read of HEAD.
pub record CheckpointVerifyGateway : Type 0 where
  pub knowledge : KnowledgeGateway
  pub head_sha : String → World → Fallible String × World

-- The HEAD at which each repository was last verified; the map is only read at a key.
abbrev pub CheckpointShaMemo : Type 0
CheckpointShaMemo = String → Option String

abbrev pub remember : String → String → CheckpointShaMemo → CheckpointShaMemo
remember root sha memo = λ r. if str_eq r root then some sha else memo r

abbrev pub is_verified : CheckpointShaMemo → String → String → Bool
is_verified memo root sha = elim (memo root) [ none ↦ false | some s ↦ str_eq s sha ]

-- The state of a tree's checkpoints, with the world.
pub record Checked : Type 0 where
  pub memo : CheckpointShaMemo
  pub world : World

-- A call of what changes the world only.
abbrev pub lift {ℓ} : {A : Type ℓ} → Checked → A × World → A × Checked
lift s (a, w) = (a, record s { world = w })

module _ (now : ℕ → ℕ) (goal : Goal) where
  -- The artifacts are read again, and their HEAD remembered. No refresh is no drift.
  unfoldable pub reread_knowledge :
      CheckpointVerifyGateway → Checkpoint → String → Checked → Fallible (List ChildPlan) × Checked
  reread_knowledge gateway checkpoint root s =
      and_then (lift s (gateway.knowledge.query root s.world)) (λ k s₁.
        and_then
          (lift s₁ (
            checkpoint_verify_artifacts now gateway.knowledge goal k root (some checkpoint)
              s₁.world))
          (λ r s₂.
            (returns r.refresh_children, record s₂ { memo = remember root k.head_sha s₂.memo })))

  -- The children that refresh what drifted.
  unfoldable pub verify_knowledge_at_checkpoint :
      CheckpointVerifyGateway → Checkpoint → String → Checked → Fallible (List ChildPlan) × Checked
  verify_knowledge_at_checkpoint gateway checkpoint root s =
      let checked = and_then (lift s (gateway.head_sha root s.world)) (λ head s₁.
        let again = reread_knowledge gateway checkpoint root s₁ in
        if is_verified s₁.memo root head then (returns [], s₁) else again) in
      if str_eq root "" then (returns [], s) else checked

module _ (run_child : Goal → World → Fallible Report × World) where
  unfoldable pub run_each : List Goal → World → Fallible {0} Unit × World
  run_each [] w = (returns tt, w)
  run_each (g ∷ gs) w = and_then (run_child g w) (λ report w'. run_each gs w')

  unfoldable pub run_refresh :
      (ℕ → ℕ) → Goal → Query → List ChildPlan → World → Fallible {0} Unit × World
  run_refresh now goal query children w =
      let goals = build_split_child_goals goal children query in
      run_each goals (append_child_spawned_events now goal children goals w)

  unfoldable pub refresh_drifted_knowledge_before_integrate :
      (ℕ → ℕ)
      → Goal
      → Query
      → Option CheckpointVerifyGateway
      → Option String
      → Checked
      → Fallible {0} Unit × Checked
  refresh_drifted_knowledge_before_integrate now goal query none root s = (returns tt, s)
  refresh_drifted_knowledge_before_integrate now goal query (some gateway) root s =
      let path : String = elim root [ none ↦ "" | some r ↦ r ] in
      and_then (verify_knowledge_at_checkpoint now goal gateway Checkpoint.integrate path s)
        (λ children s₁.
          let refreshed = lift s₁ (run_refresh now goal query children s₁.world) in
          if length children == 0 then (returns tt, s₁) else refreshed)
