-- ===== src/Eventlog/Conformance/Spend.antt =====
-- src/eventlog/conformance/spend.ts: the spend that the log reports never falls, and stays under
-- the ceiling that the log states.
use corellia.Prelude.{
  ℕ, suc, ◌≤◌, ◌≡◌, ◌↔◌, refl, String, Option, none, some, List, [], ◌∷◌, ◌++◌, arith, All,
  append-empty, append-empty_intro, if◌then◌else◌, ltb, Option-cases, inl, inr,
}
use corellia.Prelude.Text.{concat, show, show_usd}
use corellia.Contract.Events.{round_started, ceiling_reached, FactoryEvent}
use corellia.Eventlog.Conformance.Violation.{
  ConformanceViolation, spend_monotone, spend_under_ceiling,
}

pub record SpendPoint : Type 0 where
  pub index : ℕ
  pub goal_id : String
  pub spent_usd : ℕ

-- `ceilingUsd` and `ceilingIdx`: those of the first event that states a ceiling.
unfoldable pub declared_ceiling : ℕ → List FactoryEvent → Option (ℕ × ℕ)
declared_ceiling i [] = none
declared_ceiling i (e ∷ es) =
    let rest = declared_ceiling (suc i) es in
    elim e.body [ ceiling_reached spent ceiling ↦ some (ceiling, i) | _ ↦ rest ]

unfoldable pub spend_points : ℕ → List FactoryEvent → List SpendPoint
spend_points i [] = []
spend_points i (e ∷ es) =
    let rest = spend_points (suc i) es in
    elim e.body [
      | round_started round spent ms ↦
          record { index = i; goal_id = e.goal_id; spent_usd = spent } ∷ rest
      | ceiling_reached spent ceiling ↦
          record { index = i; goal_id = e.goal_id; spent_usd = spent } ∷ rest
      | _ ↦ rest
    ]

monotone_violation : SpendPoint → SpendPoint → ConformanceViolation
monotone_violation prev cur = record {
  invariant = spend_monotone;
  goal_id = cur.goal_id;
  indices = prev.index ∷ cur.index ∷ [];
  detail = concat (
      "cumulative spend decreased from $"
      ∷ show_usd prev.spent_usd
      ∷ " (index "
      ∷ show prev.index
      ∷ ") to $"
      ∷ show_usd cur.spent_usd
      ∷ " (index "
      ∷ show cur.index
      ∷ ")"
      ∷ []);
}

unfoldable pub monotone_violations : List SpendPoint → List ConformanceViolation
unfolding monotone_violation
monotone_violations [] = []
monotone_violations (prev ∷ []) = []
monotone_violations (prev ∷ cur ∷ ps) =
    let rest = monotone_violations (cur ∷ ps) in
    if ltb cur.spent_usd prev.spent_usd then monotone_violation prev cur ∷ rest else rest

ceiling_violation : ℕ → ℕ → SpendPoint → ConformanceViolation
ceiling_violation ceiling at point = record {
  invariant = spend_under_ceiling;
  goal_id = point.goal_id;
  indices = point.index ∷ at ∷ [];
  detail = concat (
      "spend $"
      ∷ show_usd point.spent_usd
      ∷ " (index "
      ∷ show point.index
      ∷ ") exceeds declared ceiling $"
      ∷ show_usd ceiling
      ∷ []);
}

unfoldable pub ceiling_violations : ℕ → ℕ → List SpendPoint → List ConformanceViolation
unfolding ceiling_violation
ceiling_violations ceiling at [] = []
ceiling_violations ceiling at (p ∷ ps) =
    let rest = ceiling_violations ceiling at ps in
    if ltb ceiling p.spent_usd then ceiling_violation ceiling at p ∷ rest else rest

unfoldable pub check_spend : List FactoryEvent → List ConformanceViolation
check_spend events =
    let points = spend_points 0 events in
    monotone_violations points ++ elim (declared_ceiling 0 events) [
      | none ↦ []
      | some (ceiling, at) ↦ ceiling_violations ceiling at points
    ]

-- No point reports less than the one before it.
abbrev pub IsMonotone : List SpendPoint → Type 0
IsMonotone [] = Unit
IsMonotone (p ∷ []) = Unit
IsMonotone (p ∷ q ∷ ps) = (p.spent_usd ≤ q.spent_usd) × IsMonotone (q ∷ ps)

monotone_violations-IsMonotone :
    (ps : List SpendPoint) → monotone_violations ps ≡ [] ↔ IsMonotone ps
unfolding monotone_violations
monotone_violations-IsMonotone [] = (λ h. tt, λ h. refl)
monotone_violations-IsMonotone (p ∷ []) = (λ h. tt, λ h. refl)
monotone_violations-IsMonotone (p ∷ q ∷ ps) =
    let rest = monotone_violations-IsMonotone (q ∷ ps) in ground arith

ceiling_violations-All :
    (ceiling at : ℕ) (ps : List SpendPoint)
    → ceiling_violations ceiling at ps ≡ [] ↔ All (λ p. p.spent_usd ≤ ceiling) ps
unfolding ceiling_violations
ceiling_violations-All ceiling at [] = (λ h. tt, λ h. refl)
ceiling_violations-All ceiling at (p ∷ ps) =
    let rest = ceiling_violations-All ceiling at ps in ground arith

-- The figures of a log never fall, and stay within the first ceiling that it states, if any.
pub record IsWithin (es : List FactoryEvent) : Type 0 where
  pub monotone : IsMonotone (spend_points 0 es)
  pub under :
      (ceiling at : ℕ)
      → declared_ceiling 0 es ≡ some (ceiling, at)
      → All (λ (p : SpendPoint). p.spent_usd ≤ ceiling) (spend_points 0 es)

pub check_spend-IsWithin : (es : List FactoryEvent) → check_spend es ≡ [] ↔ IsWithin es
unfolding check_spend
check_spend-IsWithin es = (
  λ h.
      let (first, second) = append-empty _ _ h in
      record {
        monotone = (monotone_violations-IsMonotone (spend_points 0 es)).0 first;
        under = λ ceiling at e.
            (ceiling_violations-All ceiling at (spend_points 0 es)).0 (rw e at second);
      },
  λ w.
      append-empty_intro _ _ ((monotone_violations-IsMonotone (spend_points 0 es)).1 w.monotone)
        (under w),
)
  where
    under :
        IsWithin es
        → (elim (declared_ceiling 0 es) [
          | none ↦ []
          | some (ceiling, at) ↦ ceiling_violations ceiling at (spend_points 0 es)
        ])
          ≡ []
    under w = elim (Option-cases (declared_ceiling 0 es)) [
      | inl e ↦ rw e refl
      | inr ((ceiling, at), e) ↦
          rw e ((ceiling_violations-All ceiling at (spend_points 0 es)).1 (w.under ceiling at e))
    ]
