-- ===== src/Eventlog/Conformance/Gates.antt =====
-- The check of src/eventlog/conformance/ordering.ts against what each goal's own events say.
use corellia.Prelude.{
  ℕ, suc, ◌≡◌, ◌↔◌, refl, sym, ◌∙◌, String, Option, some, List, [], ◌∷◌, Bool, true, false, not,
  arith, any, In, if◌then◌else◌, ltb, Bool-cases, Option-cases, inl, inr,
}
use corellia.Contract.Events.{FactoryEvent}
use corellia.Eventlog.Conformance.Violation.{ConformanceViolation}
use corellia.Eventlog.Conformance.Ordering.{
  Entries, get, Firsts, scan, order_violations, check_deterministic_before_judge,
}
use corellia.Eventlog.Conformance.Firsts.{
  first_at, scan-first, first_at_ge, any-first_at, IsKeyed, scan-IsKeyed, get-In, det_of, judge_of,
}

-- A goal that is judged before any gate of it has run is never gated after.
abbrev pub gate_first : String → List FactoryEvent → Bool
gate_first goal [] = true
gate_first goal (e ∷ es) =
    if det_of goal e
    then true
    else if judge_of goal e
    then not (any (det_of goal) es)
    else gate_first goal es

-- The gate stands after the judge.
abbrev late : Option ℕ → Option ℕ → Bool
late (some j) (some d) = ltb j d
late _ _ = false

det_not_judge : (goal : String) (e : FactoryEvent) → det_of goal e ≡ true → judge_of goal e ≡ false
det_not_judge goal e h = ground arith

gate_first-late :
    (goal : String) (i : ℕ) (es : List FactoryEvent)
    → gate_first goal es ≡ not (late (first_at (judge_of goal) i es) (first_at (det_of goal) i es))
gate_first-late goal i [] = refl
gate_first-late goal i (e ∷ es) = elim (Bool-cases (det_of goal e)) [
  | inl d ↦
      let j = det_not_judge goal e d in
      elim (Option-cases (first_at (judge_of goal) (suc i) es)) [
        | inl n ↦ rw d (rw j (rw n refl))
        | inr (n, f) ↦
            let ge = first_at_ge (judge_of goal) (suc i) n es f in rw d (rw j (rw f (ground arith)))
      ]
  | inr d ↦ elim (Bool-cases (judge_of goal e)) [
    | inl j ↦
        let here = any-first_at (det_of goal) (suc i) es in
        elim (Option-cases (first_at (det_of goal) (suc i) es)) [
          | inl n ↦ rw d (rw j (rw here (rw n refl)))
          | inr (n, f) ↦
              let ge = first_at_ge (det_of goal) (suc i) n es f in
              rw d (rw j (rw here (rw f (ground arith))))
        ]
    | inr j ↦ rw d (rw j (gate_first-late goal (suc i) es))
  ]
]

order_violations-late :
    (det judge : Entries)
    → order_violations det judge ≡ []
      ↔ ((x : String × ℕ) → In x judge → late (some x.1) (get x.0 det) ≡ false)
unfolding order_violations
order_violations-late det [] = (λ h x m. absurd m, λ h. refl)
order_violations-late det (y ∷ judge) =
    let rest = order_violations-late det judge in
    elim (Option-cases (get y.0 det)) [
      | inl e ↦ (
        λ h x m. elim m [
          | inl q ↦ rw q (rw e refl)
          | inr r ↦ rest.0 (rw (e, order_violations) at h) x r
        ],
        λ h. rw (e, order_violations) (rest.1 (λ x m. h x (inr m))),
      )
      | inr (d, e) ↦ elim (Bool-cases (ltb y.1 d)) [
        | inl l ↦ (
          λ h. absurd (cons-nil (rw l at (rw (e, order_violations) at h))),
          λ h. absurd (true-false (rw l at (rw e at (h y (inl refl))))),
        )
        | inr l ↦ (
          λ h x m. elim m [
            | inl q ↦ rw q (rw e l)
            | inr r ↦ rest.0 (rw l at (rw (e, order_violations) at h)) x r
          ],
          λ h. rw (e, order_violations) (rw l (rest.1 (λ x m. h x (inr m)))),
        )
      ]
    ]
  where
    cons-nil : {v : ConformanceViolation} {vs : List ConformanceViolation} → v ∷ vs ≡ [] → ⊥
    cons-nil e = cc

    true-false : true ≡ false → ⊥
    true-false e = cc

-- The check of the order is silent on exactly the logs in which no goal is judged before its first
-- gate and gated after.
pub check_deterministic_before_judge-gate_first :
    (es : List FactoryEvent)
    → check_deterministic_before_judge es ≡ [] ↔ ((goal : String) → gate_first goal es ≡ true)
unfolding check_deterministic_before_judge get
check_deterministic_before_judge-gate_first es = (
  λ h goal. gate_first-late goal 0 es ∙ in_order goal (silent h goal),
  λ h. (order_violations-late s.det s.judge).1 (λ x m.
      let late_at = in_order_back x.0 (sym (gate_first-late x.0 0 es) ∙ h x.0) in
      let (a, b) = scan-first x.0 0 es none_yet in let found = keyed x m in ground arith),
)
  where
    none_yet : Firsts
    none_yet = record { det = []; judge = [] }

    s : Firsts
    s = scan 0 es none_yet

    keyed : IsKeyed s.judge
    keyed = scan-IsKeyed 0 es none_yet (λ x m. absurd m)

    in_order :
        (goal : String)
        → late (first_at (judge_of goal) 0 es) (first_at (det_of goal) 0 es) ≡ false
        → not (late (first_at (judge_of goal) 0 es) (first_at (det_of goal) 0 es)) ≡ true
    in_order goal e = rw e refl

    in_order_back :
        (goal : String)
        → not (late (first_at (judge_of goal) 0 es) (first_at (det_of goal) 0 es)) ≡ true
        → late (first_at (judge_of goal) 0 es) (first_at (det_of goal) 0 es) ≡ false
    in_order_back goal e = ground arith

    silent :
        order_violations s.det s.judge ≡ []
        → (goal : String)
        → late (first_at (judge_of goal) 0 es) (first_at (det_of goal) 0 es) ≡ false
    silent h goal =
        let (a, b) = scan-first goal 0 es none_yet in
        elim (Option-cases (get goal s.judge)) [
          | inl e ↦ ground arith
          | inr (j, e) ↦
              let passed =
                (order_violations-late s.det s.judge).0 h (goal, j) (get-In goal j s.judge e) in
              ground arith
        ]
