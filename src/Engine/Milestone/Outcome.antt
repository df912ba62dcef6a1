-- ===== src/Engine/Milestone/Outcome.antt =====
-- src/engine/milestone/outcome.ts, and the RoundAssessment of round-assessment.ts beside it.
use corellia.Prelude.{
  ℕ, ◌+◌, ◌<◌, ◌≡◌, ◌≢◌, inl, inr, String, Option, none, some, List, [], ◌∷◌, ◌++◌, map, Bool, true,
  false, not, ◌&&◌, arith, ltb, leb, ◌==◌, str_eq, find?, filter, length, length-append,
  if◌then◌else◌, Bool-cases,
}
use mathlib.Core.List.{append-nil}
use corellia.Prelude.Int.{ℤ, pos, ltb_ℤ}
use corellia.Prelude.Text.{concat, join, show}
use corellia.Contract.Json.{Json}
use corellia.Contract.Decision.{ChildPlan}
use corellia.Contract.Report.{Artifact, Report}
use corellia.Contract.Verdict.{Verdict}
use corellia.Contract.Events.{MilestoneOutcome, done, continue, halt_no_progress, halt_max_rounds}

pub record CriterionResult : Type 0 where
  pub id : String
  pub ok : Bool
  pub detail : String

-- The parsed criteria are carried along, and nothing here reads them.
pub record RoundAssessment : Type 0 where
  pub passing_count : ℕ
  pub criteria_total : ℕ
  pub judge_verdict : Verdict
  pub criteria : List Json
  pub check_results : List CriterionResult
  pub diff_digest : List String

unfoldable pub is_milestone_done : RoundAssessment → Bool
is_milestone_done a =
    ltb 0 a.criteria_total && (a.passing_count == a.criteria_total && a.judge_verdict.pass)

pub record OutcomeDecision : Type 0 where
  pub outcome : MilestoneOutcome
  pub flat_rounds : ℕ

unfoldable pub decide_milestone_outcome : RoundAssessment → ℤ → ℕ → ℕ → ℕ → OutcomeDecision
unfolding is_milestone_done
decide_milestone_outcome a prior_passing_count flat_rounds round_index max_rounds =
    let flat = if ltb_ℤ prior_passing_count (pos a.passing_count) then 0 else flat_rounds + 1 in
    if is_milestone_done a
    then record { outcome = done; flat_rounds = flat }
    else if leb 2 flat
    then record { outcome = halt_no_progress; flat_rounds = flat }
    else if leb max_rounds (round_index + 1)
    then record { outcome = halt_max_rounds; flat_rounds = flat }
    else record { outcome = continue; flat_rounds = flat }

pub record ChildOutcome : Type 0 where
  pub plan : ChildPlan
  pub report : Report

unfoldable pub extract_criteria_artifact : List ChildOutcome → Option Artifact
extract_criteria_artifact outcomes =
    elim (find? (λ c. str_eq c.plan.type "author-acceptance-criteria") outcomes) [
      | none ↦ none
      | some child ↦ child.report.artifact
    ]

-- `a || b` on texts: the first that is not empty.
or_text : String → String → String
or_text a b = if str_eq a "" then b else a

unfoldable pub unmet : RoundAssessment → List CriterionResult
unmet a = filter (λ r. not r.ok) a.check_results

unmet_blocker : RoundAssessment → String
unmet_blocker a = concat (
    "Acceptance criteria not yet met ("
    ∷ show a.passing_count
    ∷ "/"
    ∷ show a.criteria_total
    ∷ "): "
    ∷ join "; " (map (λ r. concat (r.id ∷ " (" ∷ r.detail ∷ ")" ∷ [])) (unmet a))
    ∷ [])

judge_blocker : RoundAssessment → String
judge_blocker a = concat (
    "judge-acceptance did not pass: "
    ∷ or_text (join ", " (map (λ f. f.title) a.judge_verdict.findings)) "no shippable verdict"
    ∷ [])

unfoldable pub with_unmet_acceptance_blockers : Report → RoundAssessment → Report
unfolding or_text unmet unmet_blocker judge_blocker
with_unmet_acceptance_blockers report a = record report {
  blockers =
      report.blockers
      ++ (if ltb 0 (length (unmet a)) then unmet_blocker a ∷ [] else [])
      ++ (if a.judge_verdict.pass then [] else judge_blocker a ∷ []);
}

-- The counts of an assessment are those of its results, as `assessMilestoneRound` makes them.
pub record IsCounted (a : RoundAssessment) : Type 0 where
  pub total : a.criteria_total ≡ length a.check_results
  pub passing : a.passing_count ≡ length (filter (λ r. r.ok) a.check_results)

length-split :
    (rs : List CriterionResult)
    → length (filter (λ r. r.ok) rs) + length (filter (λ r. not r.ok) rs) ≡ length rs
length-split [] = omega arith
length-split (r ∷ rs) = ground (arith, length-split rs)

-- The blockers that an assessment adds: none if and only if every result is met and the judge
-- passes.
added : RoundAssessment → ℕ
added a = (if ltb 0 (length (unmet a)) then 1 else 0) + (if a.judge_verdict.pass then 0 else 1)

blockers-added :
    (report : Report) (a : RoundAssessment)
    → length (with_unmet_acceptance_blockers report a).blockers ≡ length report.blockers + added a
unfolding with_unmet_acceptance_blockers added
blockers-added report a = elim (Bool-cases (ltb 0 (length (unmet a)))) [
  | inl e ↦ elim (Bool-cases a.judge_verdict.pass) [
    | inl p ↦ simp (e, p, length-append) (omega arith)
    | inr p ↦ simp (e, p, length-append) (omega arith)
  ]
  | inr e ↦ elim (Bool-cases a.judge_verdict.pass) [
    | inl p ↦ simp (e, p, length-append) (omega arith)
    | inr p ↦ simp (e, p, length-append) (omega arith)
  ]
]

-- An assessment that is not done, with at least one criterion and with counts that are those of its
-- results, adds a blocker to the report.
pub unmet_reported :
    (report : Report) (a : RoundAssessment)
    → IsCounted a
    → 0 < a.criteria_total
    → is_milestone_done a ≡ false
    → length report.blockers < length (with_unmet_acceptance_blockers report a).blockers
unfolding is_milestone_done added unmet
unmet_reported report a c pos_total h =
    ground (arith, blockers-added report a, length-split a.check_results)

no_unmet :
    (a : RoundAssessment) → IsCounted a → a.criteria_total ≡ 0 → ltb 0 (length (unmet a)) ≡ false
unfolding unmet
no_unmet a c z = ground (arith, length-split a.check_results)

-- An assessment without criteria, with counts that are those of its results and a judge that
-- passes, is never done, and adds no blocker to the report.
pub no_criteria_silent :
    (report : Report) (a : RoundAssessment) (prior : ℤ) (flat index max_rounds : ℕ)
    → IsCounted a
    → a.criteria_total ≡ 0
    → a.judge_verdict.pass ≡ true
    → ((decide_milestone_outcome a prior flat index max_rounds).outcome ≢ done)
      × ((with_unmet_acceptance_blockers report a).blockers ≡ report.blockers)
unfolding decide_milestone_outcome with_unmet_acceptance_blockers
no_criteria_silent report a prior flat index max_rounds c z p =
    (ground arith, simp (no_unmet a c z, p, append-nil))

-- A round is called done exactly when all its criteria and its judge pass; a round after which the
-- loop goes on leaves another.
pub outcome_bounds :
    (a : RoundAssessment) (prior : ℤ) (flat index max_rounds : ℕ)
    → let d = decide_milestone_outcome a prior flat index max_rounds in
      (d.outcome ≡ done → is_milestone_done a ≡ true)
      × (d.outcome ≢ done → is_milestone_done a ≡ false)
      × (d.outcome ≡ continue → index + 1 < max_rounds)
unfolding decide_milestone_outcome
outcome_bounds a prior flat index max_rounds =
    (λ h. ground arith, λ h. ground arith, λ h. ground arith)
