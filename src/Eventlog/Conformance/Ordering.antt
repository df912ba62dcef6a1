-- ===== src/Eventlog/Conformance/Ordering.antt =====
-- src/eventlog/conformance/ordering.ts: the deterministic gate runs before the judge.
-- A Map that is iterated is the list of its entries, in insertion order.
use corellia.Prelude.{
  ℕ, suc, String, Option, none, some, List, [], ◌∷◌, ◌++◌, if◌then◌else◌, ltb, str_eq,
}
use corellia.Prelude.Text.{concat, show}
use corellia.Contract.Events.{deterministic_checked, judge_verdict, FactoryEvent}
use corellia.Eventlog.Conformance.Violation.{ConformanceViolation, deterministic_before_judge}

abbrev pub Entries : Type 0
Entries = List (String × ℕ)

-- `m.get(k)`
unfoldable pub get : String → Entries → Option ℕ
get k [] = none
get k (x ∷ m) = let rest = get k m in if str_eq x.0 k then some x.1 else rest

-- `if (!m.has(k)) m.set(k, i)`
unfoldable pub set_first : String → ℕ → Entries → Entries
set_first k i m = elim (get k m) [ none ↦ m ++ (k, i) ∷ [] | some old ↦ m ]

pub record Firsts : Type 0 where
  pub det : Entries
  pub judge : Entries

unfoldable pub note : ℕ → FactoryEvent → Firsts → Firsts
note i e s = elim e.body [
  | deterministic_checked verdict ↦ record s { det = set_first e.goal_id i s.det }
  | judge_verdict type verdict tier usage ↦ record s { judge = set_first e.goal_id i s.judge }
  | _ ↦ s
]

-- The loop over the events.
unfoldable pub scan : ℕ → List FactoryEvent → Firsts → Firsts
scan i [] s = s
scan i (e ∷ es) s = scan (suc i) es (note i e s)

order_violation : String → ℕ → ℕ → ConformanceViolation
order_violation goal_id det judge = record {
  invariant = deterministic_before_judge;
  goal_id = goal_id;
  indices = det ∷ judge ∷ [];
  detail = concat (
      "deterministic-checked (index "
      ∷ show det
      ∷ ") ran after judge-verdict (index "
      ∷ show judge
      ∷ ") for goal \""
      ∷ goal_id
      ∷ "\""
      ∷ []);
}

-- The loop over the entries of `firstJudge`.
unfoldable pub order_violations : Entries → Entries → List ConformanceViolation
unfolding order_violation
order_violations det [] = []
order_violations det (x ∷ judge) =
    let rest = order_violations det judge in
    elim (get x.0 det) [
      | none ↦ rest
      | some d ↦ if ltb x.1 d then order_violation x.0 d x.1 ∷ rest else rest
    ]

unfoldable pub check_deterministic_before_judge : List FactoryEvent → List ConformanceViolation
check_deterministic_before_judge events =
    let s = scan 0 events (record { det = []; judge = [] }) in order_violations s.det s.judge
