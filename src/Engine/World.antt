-- ===== src/Engine/World.antt =====
-- What the functions of src/engine/ read and change besides their arguments: the spend of the tree
-- (the TreeState of src/engine/tree-spend.ts), the event log, and how often the clock was read.
use corellia.Prelude.{
  ℕ, suc, String, Option, List, [], ◌∷◌, ◌++◌, Bool, ◌+◌, ◌≡◌, length, length-append,
}
use corellia.Contract.Events.{EventBody, FactoryEvent}

-- Amounts are millionths of a dollar. No deadline is an infinite one.
pub record TreeState : Type 0 where
  pub spent_usd : ℕ
  pub ceiling_usd : ℕ
  pub deadline : Option ℕ
  pub ceiling_emitted : Bool

pub record World : Type 0 where
  pub tree : TreeState
  pub log : List FactoryEvent
  pub tick : ℕ

-- `store.append({ type, at: now(), goalId, ... })`
unfoldable pub append_event : (ℕ → ℕ) → String → EventBody → World → World
append_event now goal_id body w = record w {
  log = w.log ++ record { at = now w.tick; goal_id = goal_id; body = body } ∷ [];
  tick = suc w.tick;
}

pub length-append_event :
    (now : ℕ → ℕ) (goal_id : String) (body : EventBody) (w : World)
    → length (append_event now goal_id body w).log ≡ length w.log + 1
unfolding append_event
length-append_event now goal_id body w =
    length-append w.log (record { at = now w.tick; goal_id = goal_id; body = body } ∷ [])
