-- ===== src/Eventlog/Conformance/JudgeWrites.antt =====
-- src/eventlog/conformance/judge-writes.ts, and `goalTypeIndex` of types.ts beside it: judges never
-- write. The index is never iterated, and is a function.
use text.Mathlib.Text.{starts_with}
use corellia.Prelude.{
  ℕ, suc, String, Option, none, some, List, [], ◌∷◌, ◌++◌, Bool, true, false, ◌||◌, includes,
  if◌then◌else◌, str_eq,
}
use corellia.Prelude.Text.{concat, show}
use corellia.Contract.Goal.{Kind, judge}
use corellia.Contract.Events.{
  EventBody, goal_received, files_touched, scope_escaped, worktree_collected, branch_pushed,
  pr_opened, knowledge_written, memory_written, FactoryEvent,
}
use corellia.Eventlog.Conformance.Violation.{ConformanceViolation, no_judge_authored_writes}

abbrev pub TypeIndex : Type 0
TypeIndex = String → Option String

-- `goalType.set(e.goalId, e.goal.type)` for a received goal.
unfoldable pub receive : FactoryEvent → TypeIndex → TypeIndex
receive e index id = elim e.body [
  | goal_received goal ↦ if str_eq e.goal_id id then some goal.type else index id
  | _ ↦ index id
]

-- `goalTypeIndex`: the type that a goal was last received with.
unfoldable pub goal_type_index : List FactoryEvent → TypeIndex → TypeIndex
unfolding receive
goal_type_index [] index = index
goal_type_index (e ∷ es) index = goal_type_index es (receive e index)

-- `WRITE_ATTRIBUTABLE`: the name of the event's type, if it is one of them.
unfoldable pub write_of : EventBody → Option String
write_of body = elim body [
  | files_touched scope files ↦ some "files-touched"
  | scope_escaped source scope paths ↦ some "scope-escaped"
  | worktree_collected tree branch commits ↦ some "worktree-collected"
  | branch_pushed tree branch remote ↦ some "branch-pushed"
  | pr_opened tree branch url ↦ some "pr-opened"
  | knowledge_written artifact ↦ some "knowledge-written"
  | memory_written pointer ↦ some "memory-written"
  | _ ↦ none
]

abbrev core_judge_type_names : List String
core_judge_type_names =
    "judge-split" ∷ "judge-integration" ∷ "judge-acceptance" ∷ "critique-code" ∷ "critique-doc"
    ∷ "critique-ui" ∷ []

unfoldable pub is_judge_kind_by_convention : String → Bool
is_judge_kind_by_convention name =
    includes core_judge_type_names name
    || (starts_with name "judge-" || starts_with name "critique-")

-- A resolver from a type's name to its kind, which may be absent.
abbrev pub Resolver : Type 0
Resolver = Option (String → Option Kind)

pub record Classified : Type 0 where
  pub judge_kind : Bool
  pub by_convention : Bool

abbrev is_judge : Kind → Bool
is_judge judge = true
is_judge _ = false

unfoldable pub classify : Resolver → String → Classified
classify resolver name =
    let kind : Option Kind = elim resolver [ none ↦ none | some resolve ↦ resolve name ] in
    elim kind [
      | some k ↦ record { judge_kind = is_judge k; by_convention = false }
      | none ↦ record { judge_kind = is_judge_kind_by_convention name; by_convention = true }
    ]

pub write_violation : FactoryEvent → ℕ → String → String → Bool → ConformanceViolation
write_violation e i name written by_convention = record {
  invariant = no_judge_authored_writes;
  goal_id = e.goal_id;
  indices = i ∷ [];
  detail = concat (
      "judge-kind goal \""
      ∷ e.goal_id
      ∷ "\" (type \""
      ∷ name
      ∷ "\") authored a write: "
      ∷ written
      ∷ " (index "
      ∷ show i
      ∷ ")"
      ∷ (if by_convention
          then " [kind inferred from naming convention; supply a registry to confirm]"
          else "")
      ∷ []);
}

unfoldable pub judge_write : Resolver → TypeIndex → ℕ → FactoryEvent → List ConformanceViolation
unfolding write_violation
judge_write resolver index i e = elim (write_of e.body) [
  | none ↦ []
  | some written ↦ elim (index e.goal_id) [
    | none ↦ []
    | some name ↦
        let c = classify resolver name in
        if c.judge_kind then write_violation e i name written c.by_convention ∷ [] else []
  ]
]

unfoldable pub judge_writes_from :
    Resolver → TypeIndex → ℕ → List FactoryEvent → List ConformanceViolation
judge_writes_from resolver index i [] = []
judge_writes_from resolver index i (e ∷ es) =
    judge_write resolver index i e ++ judge_writes_from resolver index (suc i) es

unfoldable pub check_no_judge_authored_writes :
    List FactoryEvent → Resolver → List ConformanceViolation
check_no_judge_authored_writes events resolver =
    judge_writes_from resolver (goal_type_index events (λ s. none)) 0 events
