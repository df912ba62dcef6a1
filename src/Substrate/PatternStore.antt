-- ===== src/Substrate/PatternStore.antt =====
-- src/substrate/memory-pattern-store.ts, with src/contract/pattern.ts: the memos of splits by shape.
-- The map is the list of its values in insertion order; a memo's decision is the children of a split.
pub mod Tally
mod Examples
use corellia.Prelude.{
  ℕ, ◌+◌, ◌≡◌, refl, sym, ap, ◌∙◌, String, Option, none, some, Option-cases, List, [], ◌∷◌, Bool,
  true, false, ◌||◌, ◌&&◌, any, str_eq, str_eq_self, str_eq→eq, if◌then◌else◌, Bool-cases, inl, inr,
  arith,
}
use corellia.Contract.Goal.{Trust}
use corellia.Contract.Decision.{ChildPlan}
use corellia.Contract.Events.{Outcome}

pub record SplitMemo : Type 0 where
  pub shape : String
  pub decision : List ChildPlan
  pub status : Trust
  pub uses : ℕ
  pub successes : ℕ
  pub failures : ℕ

abbrev pub InMemoryPatternStore : Type 0
InMemoryPatternStore = List SplitMemo

-- `memos.get(shape)`
unfoldable pub match_shape : InMemoryPatternStore → String → Option SplitMemo
match_shape [] shape = none
match_shape (m ∷ ms) shape =
    let rest = match_shape ms shape in if str_eq m.shape shape then some m else rest

-- `memos.set(memo.shape, memo)`: a key that is there keeps its place.
unfoldable pub set_memo : SplitMemo → InMemoryPatternStore → InMemoryPatternStore
set_memo memo [] = memo ∷ []
set_memo memo (m ∷ ms) =
    let rest = set_memo memo ms in if str_eq m.shape memo.shape then memo ∷ ms else m ∷ rest

unfoldable pub from_memos : List SplitMemo → InMemoryPatternStore → InMemoryPatternStore
from_memos [] s = s
from_memos (m ∷ ms) s = from_memos ms (set_memo m s)

abbrev pub one_success : Outcome → ℕ
one_success Outcome.success = 1
one_success Outcome.failure = 0

abbrev pub one_failure : Outcome → ℕ
one_failure Outcome.success = 0
one_failure Outcome.failure = 1

unfoldable pub scored : String → List ChildPlan → Outcome → Option SplitMemo → SplitMemo
scored shape decision outcome none = record {
  shape = shape;
  decision = decision;
  status = Trust.provisional;
  uses = 1;
  successes = one_success outcome;
  failures = one_failure outcome;
}
scored shape decision outcome (some m) = record m {
  uses = m.uses + 1;
  successes = m.successes + one_success outcome;
  failures = m.failures + one_failure outcome;
}

-- `record`
unfoldable pub record_outcome :
    String → List ChildPlan → Outcome → InMemoryPatternStore → InMemoryPatternStore
record_outcome shape decision outcome s =
    set_memo (scored shape decision outcome (match_shape s shape)) s

unfoldable pub promote_found :
    Trust → Option SplitMemo → InMemoryPatternStore → InMemoryPatternStore
promote_found to none s = s
promote_found to (some m) s = set_memo (record m { status = to }) s

unfoldable pub promote : String → Trust → InMemoryPatternStore → InMemoryPatternStore
promote shape to s = promote_found to (match_shape s shape) s

-- A call that changes the store.
pub data Call : Type 0 where
  records : (shape : String) (decision : List ChildPlan) (outcome : Outcome) → Call
  promotes : (shape : String) (to : Trust) → Call

abbrev pub apply : Call → InMemoryPatternStore → InMemoryPatternStore
apply (records shape decision outcome) s = record_outcome shape decision outcome s
apply (promotes shape to) s = promote shape to s

-- The store after some calls, the last of them first.
unfoldable pub after_calls : List Call → InMemoryPatternStore
after_calls [] = []
after_calls (c ∷ earlier) = apply c (after_calls earlier)

abbrev pub is_trusted : Trust → Bool
is_trusted Trust.trusted = true
is_trusted Trust.provisional = false

-- How often a call recorded an outcome of the shape, a success of it and a failure of it.
unfoldable pub recorded : String → List Call → ℕ
recorded shape [] = 0
recorded shape (records s d o ∷ cs) =
    let rest = recorded shape cs in if str_eq s shape then rest + 1 else rest
recorded shape (promotes s to ∷ cs) = recorded shape cs

unfoldable pub succeeded : String → List Call → ℕ
succeeded shape [] = 0
succeeded shape (records s d o ∷ cs) =
    let rest = succeeded shape cs in if str_eq s shape then rest + one_success o else rest
succeeded shape (promotes s to ∷ cs) = succeeded shape cs

unfoldable pub failed : String → List Call → ℕ
failed shape [] = 0
failed shape (records s d o ∷ cs) =
    let rest = failed shape cs in if str_eq s shape then rest + one_failure o else rest
failed shape (promotes s to ∷ cs) = failed shape cs

-- Whether some call promoted the shape to trusted.
unfoldable pub signed : String → List Call → Bool
signed shape [] = false
signed shape (records s d o ∷ cs) = signed shape cs
signed shape (promotes s to ∷ cs) = (str_eq s shape && is_trusted to) || signed shape cs
