-- ===== src/Engine/SplitRound/Promoted.antt =====
-- Where src/engine/split-report.ts writes the memories of a round.
use corellia.Prelude.{ℕ, ◌≡◌, refl, String, List, [], ◌∷◌, ◌++◌, true, false, if_intro}
use corellia.Contract.Goal.{Goal, MemoryPointer}
use corellia.Contract.Report.{Report}
use corellia.Contract.Events.{FactoryEvent, Outcome, memory_written, memory_reinforced}
use corellia.Engine.World.{append_event}
use corellia.Engine.SplitRound.Layer.{choose_memory_layer}
use corellia.Engine.SplitRound.Promotion.{
  Stores, apart, is_project, pointer_of, append_shared, append_both, write_lesson, write_lessons,
  reinforce, outcome_of, promote_each, promote_child_reports,
}

-- From two logs on, a project's and a shared one: a memory of the project's layer is written to the
-- project's log alone, one of another layer to the shared log alone, and a reinforcement to both.
pub data Routed (own₀ shared₀ : List FactoryEvent)
    : List FactoryEvent → List FactoryEvent → Type 0 where
  start : Routed own₀ shared₀ own₀ shared₀
  to_own :
      {own shared : List FactoryEvent} (p : MemoryPointer) (at : ℕ) (goal_id : String)
      → is_project p.layer ≡ true
      → Routed own₀ shared₀ own shared
      → Routed own₀ shared₀
          (own ++ record { at = at; goal_id = goal_id; body = memory_written p } ∷ [])
          shared
  to_shared :
      {own shared : List FactoryEvent} (p : MemoryPointer) (at : ℕ) (goal_id : String)
      → is_project p.layer ≡ false
      → Routed own₀ shared₀ own shared
      → Routed own₀ shared₀ own
          (shared ++ record { at = at; goal_id = goal_id; body = memory_written p } ∷ [])
  to_both :
      {own shared : List FactoryEvent} (id : String) (o : Outcome) (at : ℕ) (goal_id : String)
      → Routed own₀ shared₀ own shared
      → Routed own₀ shared₀
          (own ++ record { at = at; goal_id = goal_id; body = memory_reinforced id o } ∷ [])
          (shared ++ record { at = at; goal_id = goal_id; body = memory_reinforced id o } ∷ [])

-- The stores are two, and their logs were routed.
unfoldable pub AreRouted : List FactoryEvent → List FactoryEvent → Stores → Type 0
AreRouted own₀ shared₀ s =
    (log : List FactoryEvent) × (s.shared ≡ apart log) × Routed own₀ shared₀ s.world.log log

module _ (now : ℕ → ℕ) (own₀ shared₀ : List FactoryEvent) where
  own-AreRouted :
      (goal : Goal) (p : MemoryPointer) (s : Stores)
      → is_project p.layer ≡ true
      → AreRouted own₀ shared₀ s
      → AreRouted own₀ shared₀
          (record s { world = append_event now goal.id (memory_written p) s.world })
  unfolding AreRouted append_event
  own-AreRouted goal p s h (log, e, r) = (log, e, to_own p (now s.world.tick) goal.id h r)

  shared-AreRouted :
      (goal : Goal) (p : MemoryPointer) (s : Stores)
      → is_project p.layer ≡ false
      → AreRouted own₀ shared₀ s
      → AreRouted own₀ shared₀ (append_shared now goal (memory_written p) s)
  unfolding AreRouted append_shared
  shared-AreRouted goal p s h (log, e, r) = rw e (
    log ++ record { at = now s.world.tick; goal_id = goal.id; body = memory_written p } ∷ [],
    refl,
    to_shared p (now s.world.tick) goal.id h r,
  )

  both-AreRouted :
      (goal : Goal) (id : String) (o : Outcome) (s : Stores)
      → AreRouted own₀ shared₀ s
      → AreRouted own₀ shared₀ (append_both now goal (memory_reinforced id o) s)
  unfolding AreRouted append_both append_event
  both-AreRouted goal id o s (log, e, r) = rw e (
    log ++ record { at = now s.world.tick; goal_id = goal.id; body = memory_reinforced id o } ∷ [],
    refl,
    to_both id o (now s.world.tick) goal.id r,
  )

  write_lesson-AreRouted :
      (goal : Goal) (lesson : String) (s : Stores)
      → AreRouted own₀ shared₀ s
      → AreRouted own₀ shared₀ (write_lesson now goal lesson s)
  unfolding write_lesson
  write_lesson-AreRouted goal lesson s h =
      let p = pointer_of goal (choose_memory_layer lesson) in
      if_intro (AreRouted own₀ shared₀) (is_project (choose_memory_layer lesson).layer)
        (λ t. own-AreRouted goal p s t h) (λ f. shared-AreRouted goal p s f h)

  write_lessons-AreRouted :
      (goal : Goal) (lessons : List String) (s : Stores)
      → AreRouted own₀ shared₀ s
      → AreRouted own₀ shared₀ (write_lessons now goal lessons s)
  unfolding write_lessons
  write_lessons-AreRouted goal [] s h = h
  write_lessons-AreRouted goal (l ∷ ls) s h =
      write_lessons-AreRouted goal ls (write_lesson now goal l s)
        (write_lesson-AreRouted goal l s h)

  reinforce-AreRouted :
      (goal : Goal) (o : Outcome) (ids : List String) (s : Stores)
      → AreRouted own₀ shared₀ s
      → AreRouted own₀ shared₀ (reinforce now goal o ids s)
  unfolding reinforce
  reinforce-AreRouted goal o [] s h = h
  reinforce-AreRouted goal o (m ∷ ms) s h =
      reinforce-AreRouted goal o ms (append_both now goal (memory_reinforced m o) s)
        (both-AreRouted goal m o s h)

  promote_each-AreRouted :
      (goals : List Goal) (reports : List Report) (s : Stores)
      → AreRouted own₀ shared₀ s
      → AreRouted own₀ shared₀ (promote_each now goals reports s)
  unfolding promote_each
  promote_each-AreRouted [] rs s h = h
  promote_each-AreRouted (g ∷ gs) [] s h = h
  promote_each-AreRouted (g ∷ gs) (r ∷ rs) s h = promote_each-AreRouted gs rs _ (
      reinforce-AreRouted g (outcome_of r) r.memories_used _
        (write_lessons-AreRouted g r.lessons s h))

-- With a shared store apart from the project's, the promotion of a round's reports leaves both logs
-- as they were with events added: a memory of the project's layer goes to the project's log alone,
-- a memory of another layer to the shared log alone, and a reinforcement to both, in one order.
pub promoted-Routed :
    (now : ℕ → ℕ) (goals : List Goal) (reports : List Report) (s : Stores)
    (shared : List FactoryEvent)
    → s.shared ≡ apart shared
    → (log : List FactoryEvent) × ((promote_child_reports now goals reports s).1.shared ≡ apart log)
      × Routed s.world.log shared (promote_child_reports now goals reports s).1.world.log log
unfolding promote_child_reports
promoted-Routed now goals reports s shared h =
    unfold AreRouted in
    promote_each-AreRouted now s.world.log shared goals reports s
      (unfold AreRouted in (shared, h, start))
