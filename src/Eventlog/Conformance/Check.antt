-- ===== src/Eventlog/Conformance/Check.antt =====
-- src/eventlog/conformance.ts: all the checks of a log, one after the other.
use corellia.Prelude.{
  ◌≡◌, ◌↔◌, String, Option, none, some, List, [], ◌∷◌, ◌++◌, true, All, length, append-empty,
  append-empty_intro, if◌then◌else◌, map, ◌==◌,
}
use corellia.Prelude.Text.{concat, join, show}
use corellia.Contract.GoalType.{GoalTypeDef}
use corellia.Contract.Events.{FactoryEvent}
use corellia.Eventlog.Conformance.Violation.{
  ConformanceInvariant, ConformanceViolation, deterministic_before_judge, no_judge_authored_writes,
  spend_monotone, spend_under_ceiling, brief_carries_deadline, park_carries_ttl,
  worktree_well_nested,
}
use corellia.Eventlog.Conformance.Ordering.{check_deterministic_before_judge}
use corellia.Eventlog.Conformance.Gates.{gate_first, check_deterministic_before_judge-gate_first}
use corellia.Eventlog.Conformance.JudgeWrites.{Resolver, check_no_judge_authored_writes}
use corellia.Eventlog.Conformance.HandsOff.{IsHandsOff, check_no_judge_authored_writes-IsHandsOff}
use corellia.Eventlog.Conformance.Spend.{check_spend, IsWithin, check_spend-IsWithin}
use corellia.Eventlog.Conformance.Touchpoints.{check_touchpoints, IsSafe, check_touchpoints-IsSafe}
use corellia.Eventlog.Conformance.Worktree.{check_worktree_lifecycle}
use corellia.Eventlog.Conformance.Nesting.{absent, accepts, check_worktree_lifecycle-accepts}

-- The registry of goal types, read by name: `registry.has(name)` and `registry.get(name)`.
abbrev pub Registry : Type 0
Registry = String → Option GoalTypeDef

pub record ConformanceOptions : Type 0 where
  pub registry : Option Registry
  pub resolve_kind : Resolver

unfoldable pub kind_resolver_from : ConformanceOptions → Resolver
kind_resolver_from opts = elim opts.resolve_kind [
  | some resolve ↦ some resolve
  | none ↦ elim opts.registry [
    | none ↦ none
    | some registry ↦ some (λ name. elim (registry name) [ none ↦ none | some d ↦ some d.kind ])
  ]
]

unfoldable pub check_conformance :
    List FactoryEvent → ConformanceOptions → List ConformanceViolation
check_conformance events opts =
    check_deterministic_before_judge events
    ++ (check_no_judge_authored_writes events (kind_resolver_from opts)
        ++ (check_spend events ++ (check_touchpoints events ++ check_worktree_lifecycle events)))

abbrev invariant_name : ConformanceInvariant → String
invariant_name deterministic_before_judge = "deterministic-before-judge"
invariant_name no_judge_authored_writes = "no-judge-authored-writes"
invariant_name spend_monotone = "spend-monotone"
invariant_name spend_under_ceiling = "spend-under-ceiling"
invariant_name brief_carries_deadline = "brief-carries-deadline"
invariant_name park_carries_ttl = "park-carries-ttl"
invariant_name worktree_well_nested = "worktree-well-nested"

unfoldable pub format_conformance : List ConformanceViolation → String
format_conformance [] = "PASS"
format_conformance (v ∷ vs) = join "\n" (
    concat (
      "FAIL — "
      ∷ show (length (v ∷ vs))
      ∷ " violation"
      ∷ (if length (v ∷ vs) == 1 then "" else "s")
      ∷ ":"
      ∷ [])
    ∷ map (λ w. concat ("  [" ∷ invariant_name w.invariant ∷ "] " ∷ w.detail ∷ [])) (v ∷ vs))

-- What the audit asks of a log.
pub record Conforms (opts : ConformanceOptions) (es : List FactoryEvent) : Type 0 where
  pub gated : (goal : String) → gate_first goal es ≡ true
  pub hands_off : IsHandsOff (kind_resolver_from opts) es
  pub within : IsWithin es
  pub safe : All IsSafe es
  pub nested : (tree : String) → accepts tree absent es ≡ true

-- The audit of a log reports nothing exactly when the log conforms: no goal is judged before its
-- first gate and gated after, no goal of a judging type writes, the stated spend never falls and
-- keeps to the first stated ceiling, every brief of a block and every park has a positive duration,
-- and every worktree is well nested.
pub check_conformance-Conforms :
    (opts : ConformanceOptions) (es : List FactoryEvent)
    → check_conformance es opts ≡ [] ↔ Conforms opts es
unfolding check_conformance
check_conformance-Conforms opts es = (
  λ h.
      let (a, h₁) = append-empty _ _ h in
      let (b, h₂) = append-empty _ _ h₁ in
      let (c, h₃) = append-empty _ _ h₂ in
      let (d, e) = append-empty _ _ h₃ in
      record {
        gated = (check_deterministic_before_judge-gate_first es).0 a;
        hands_off = (check_no_judge_authored_writes-IsHandsOff (kind_resolver_from opts) es).0 b;
        within = (check_spend-IsWithin es).0 c;
        safe = (check_touchpoints-IsSafe es).0 d;
        nested = (check_worktree_lifecycle-accepts es).0 e;
      },
  λ k. append-empty_intro _ _ ((check_deterministic_before_judge-gate_first es).1 k.gated) (
      append-empty_intro _ _
        ((check_no_judge_authored_writes-IsHandsOff (kind_resolver_from opts) es).1 k.hands_off)
        (append-empty_intro _ _ ((check_spend-IsWithin es).1 k.within) (
          append-empty_intro _ _ ((check_touchpoints-IsSafe es).1 k.safe)
            ((check_worktree_lifecycle-accepts es).1 k.nested)))),
)
