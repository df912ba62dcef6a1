-- ===== src/Engine/SplitRound/Promotion.antt =====
-- src/engine/split-report.ts, `promoteChildReports`: the children's lessons become memories, and the
-- memories they used are reinforced.
use Prim.Native.String.{String}
use corellia.Prelude.{
  ℕ, zero, suc, Option, none, some, List, [], ◌∷◌, ◌++◌, map, Bool, true, false, length, str_eq,
  ◌==◌, if◌then◌else◌,
}
use corellia.Prelude.Text.{concat, join}
use corellia.Contract.Goal.{Goal, MemoryPointer, MemoryLayer, Trust}
use corellia.Contract.Report.{Report}
use corellia.Contract.Events.{EventBody, FactoryEvent, Outcome, memory_written, memory_reinforced}
use corellia.Engine.World.{World, append_event}
use corellia.Engine.RepairIntegration.{add_paths}
use corellia.Engine.SplitRound.Layer.{choose_memory_layer, LayerDecision}

-- The store of the type and global layers: left out, the project's own, or another log.
pub data SharedStore : Type 0 where
  omitted same : SharedStore
  apart : (log : List FactoryEvent) → SharedStore

pub record Stores : Type 0 where
  pub world : World
  pub shared : SharedStore

pub record SplitPromotion : Type 0 where
  pub lessons : List String
  pub learned : String

-- `[...new Set(xs)]`
abbrev pub unique : List String → List String
unique xs = add_paths [] xs

-- `s.slice(0, n)`, where a character above the basic plane counts as one here.
unfoldable pub prefix : ℕ → String → String
prefix zero s = ""
prefix (suc n) String.[] = ""
prefix (suc n) (String.◌∷◌ c s) = String.◌∷◌ c (prefix n s)

abbrev pub is_project : MemoryLayer → Bool
is_project MemoryLayer.project = true
is_project MemoryLayer.type = false
is_project MemoryLayer.global = false

abbrev pub namespace_of : MemoryLayer → Goal → Option String
namespace_of MemoryLayer.project goal = none
namespace_of MemoryLayer.type goal = some goal.type
namespace_of MemoryLayer.global goal = none

abbrev pub pointer_of : Goal → LayerDecision → MemoryPointer
pointer_of goal d = record {
  id = concat (goal.id ∷ ":lesson:" ∷ prefix 40 d.content ∷ []);
  layer = d.layer;
  namespace = namespace_of d.layer goal;
  content = d.content;
  provenance = Trust.provisional;
}

abbrev pub outcome_of : Report → Outcome
outcome_of r = if length r.blockers == 0 then Outcome.success else Outcome.failure

module _ (now : ℕ → ℕ) where
  abbrev pub at_now : Goal → EventBody → World → FactoryEvent
  at_now goal body w = record { at = now w.tick; goal_id = goal.id; body = body }

  -- `params.sharedStore ?? params.store`, and the clock is read once.
  unfoldable pub append_shared : Goal → EventBody → Stores → Stores
  append_shared goal body s = elim s.shared [
    | omitted ↦ record s { world = append_event now goal.id body s.world }
    | same ↦ record s { world = append_event now goal.id body s.world }
    | apart log ↦ record {
      world = record s.world { tick = suc s.world.tick };
      shared = apart (log ++ at_now goal body s.world ∷ []);
    }
  ]

  -- The event goes to the project's store, and again to another one.
  unfoldable pub append_both : Goal → EventBody → Stores → Stores
  append_both goal body s = record {
    world = append_event now goal.id body s.world;
    shared = elim s.shared [
      | omitted ↦ omitted
      | same ↦ same
      | apart log ↦ apart (log ++ at_now goal body s.world ∷ [])
    ];
  }

  unfoldable pub write_lesson : Goal → String → Stores → Stores
  write_lesson goal lesson s =
      let d = choose_memory_layer lesson in
      let body = memory_written (pointer_of goal d) in
      if is_project d.layer
      then record s { world = append_event now goal.id body s.world }
      else append_shared goal body s

  unfoldable pub write_lessons : Goal → List String → Stores → Stores
  write_lessons goal [] s = s
  write_lessons goal (l ∷ ls) s = write_lessons goal ls (write_lesson goal l s)

  unfoldable pub reinforce : Goal → Outcome → List String → Stores → Stores
  reinforce goal outcome [] s = s
  reinforce goal outcome (m ∷ ms) s =
      reinforce goal outcome ms (append_both goal (memory_reinforced m outcome) s)

  -- The loop over the children, of which each has a goal and a report.
  unfoldable pub promote_each : List Goal → List Report → Stores → Stores
  promote_each [] rs s = s
  promote_each (g ∷ gs) [] s = s
  promote_each (g ∷ gs) (r ∷ rs) s =
      promote_each gs rs (reinforce g (outcome_of r) r.memories_used (write_lessons g r.lessons s))

abbrev pub lessons_of : List Report → List String
lessons_of [] = []
lessons_of (r ∷ rs) = map (λ l. (choose_memory_layer l).content) r.lessons ++ lessons_of rs

-- An empty text is no line.
abbrev pub learned_of : List Report → List String
learned_of [] = []
learned_of (r ∷ rs) =
    let rest = learned_of rs in if str_eq r.learned "" then rest else r.learned ∷ rest

unfoldable pub promote_child_reports :
    (ℕ → ℕ) → List Goal → List Report → Stores → SplitPromotion × Stores
promote_child_reports now goals reports s = (
  record {
    lessons = unique (lessons_of reports);
    learned = join "\n" (unique (learned_of reports));
  },
  promote_each now goals reports s,
)
