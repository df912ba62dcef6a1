-- ===== src/Eventlog/Conformance/Touchpoints.antt =====
-- src/eventlog/conformance/touchpoints.ts: briefs carry deadlines, and parks carry ttls.
use corellia.Prelude.{
  ℕ, suc, ◌≡◌, ◌↔◌, append-empty, append-empty_intro, refl, List, [], ◌∷◌, ◌++◌, Bool, true, arith,
  All, if◌then◌else◌,
}
use corellia.Prelude.Int.{ℤ, pos, ltb_ℤ}
use corellia.Prelude.Text.{concat, show, show_ℤ}
use corellia.Contract.Events.{blocked, parked, FactoryEvent}
use corellia.Eventlog.Conformance.Violation.{
  ConformanceViolation, brief_carries_deadline, park_carries_ttl,
}

brief_violation : FactoryEvent → ℕ → ℤ → ConformanceViolation
brief_violation e i deadline = record {
  invariant = brief_carries_deadline;
  goal_id = e.goal_id;
  indices = i ∷ [];
  detail = concat (
      "blocked brief for goal \""
      ∷ e.goal_id
      ∷ "\" (index "
      ∷ show i
      ∷ ") has no positive deadlineMs (got "
      ∷ show_ℤ deadline
      ∷ ")"
      ∷ []);
}

park_violation : FactoryEvent → ℕ → ℤ → ConformanceViolation
park_violation e i ttl = record {
  invariant = park_carries_ttl;
  goal_id = e.goal_id;
  indices = i ∷ [];
  detail = concat (
      "parked goal \""
      ∷ e.goal_id
      ∷ "\" (index "
      ∷ show i
      ∷ ") has no positive ttlMs (got "
      ∷ show_ℤ ttl
      ∷ ")"
      ∷ []);
}

-- What one event adds, at its index.
unfoldable pub touchpoint : ℕ → FactoryEvent → List ConformanceViolation
unfolding brief_violation park_violation
touchpoint i e = elim e.body [
  | blocked brief resolution ↦
      if ltb_ℤ (pos 0) brief.deadline_ms then [] else brief_violation e i brief.deadline_ms ∷ []
  | parked brief ttl ↦ if ltb_ℤ (pos 0) ttl then [] else park_violation e i ttl ∷ []
  | _ ↦ []
]

unfoldable pub touchpoints_from : ℕ → List FactoryEvent → List ConformanceViolation
touchpoints_from i [] = []
touchpoints_from i (e ∷ es) = touchpoint i e ++ touchpoints_from (suc i) es

unfoldable pub check_touchpoints : List FactoryEvent → List ConformanceViolation
check_touchpoints events = touchpoints_from 0 events

-- A human touchpoint of the log fails safe: it has a positive duration.
abbrev is_positive : ℤ → Bool
is_positive n = ltb_ℤ (pos 0) n

abbrev pub IsSafe : FactoryEvent → Type 0
IsSafe e = elim e.body [
  | blocked brief resolution ↦ is_positive brief.deadline_ms ≡ true
  | parked brief ttl ↦ is_positive ttl ≡ true
  | _ ↦ Unit
]

touchpoint-IsSafe : (i : ℕ) (e : FactoryEvent) → touchpoint i e ≡ [] ↔ IsSafe e
unfolding touchpoint
touchpoint-IsSafe i e = ground arith

touchpoints_from-IsSafe :
    (i : ℕ) (es : List FactoryEvent) → touchpoints_from i es ≡ [] ↔ All IsSafe es
unfolding touchpoints_from
touchpoints_from-IsSafe i [] = (λ h. tt, λ h. refl)
touchpoints_from-IsSafe i (e ∷ es) = (
  λ h.
      let (here, rest) = append-empty _ _ h in
      ((touchpoint-IsSafe i e).0 here, (touchpoints_from-IsSafe (suc i) es).0 rest),
  λ h.
      append-empty_intro _ _ ((touchpoint-IsSafe i e).1 h.0)
        ((touchpoints_from-IsSafe (suc i) es).1 h.1),
)

pub check_touchpoints-IsSafe : (es : List FactoryEvent) → check_touchpoints es ≡ [] ↔ All IsSafe es
unfolding check_touchpoints
check_touchpoints-IsSafe es = touchpoints_from-IsSafe 0 es
