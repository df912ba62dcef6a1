-- ===== src/Engine/DeterministicGate.antt =====
-- src/engine/deterministic-gate.ts: the checks that run before any judge.
use corellia.Prelude.{
  ℕ, suc, ◌≡◌, refl, ap, String, Option, none, some, List, [], ◌∷◌, ◌++◌, map, Bool, true, false,
  not, arith, all, filter, length, if◌then◌else◌,
}
use corellia.Prelude.Int.{pos, ◌-ℤ◌}
use corellia.Prelude.Text.{concat, join}
use corellia.Contract.Goal.{Budget, Goal}
use corellia.Contract.GoalType.{CheckResult, DeterministicCheck}
use corellia.Contract.Report.{Artifact}
use corellia.Contract.Verdict.{Dimension, Severity, Finding, Verdict}
use corellia.Contract.Events.{tool_calls, deterministic_checked}
use corellia.Engine.World.{World, append_event}
use corellia.Engine.Budget.{consume_n}

pub record DeterministicGateResult : Type 0 where
  pub verdict : Option Verdict
  pub budget : Budget
  pub tool_calls_exhausted : Bool
  pub tool_calls_used : ℕ

unfoldable pub finding_of : DeterministicCheck → CheckResult → Finding
finding_of check result = record {
  title = concat (check.name ∷ ": " ∷ result.detail ∷ []);
  dimension = Dimension.spec;
  severity = Severity.high;
  gating = true;
  prescription = result.prescription;
  escalated = false;
}

-- The loop over the checks: `findings`, `allOk` and `toolCallsUsed` after it.
unfoldable pub run_checks :
    Goal → Option Artifact → List DeterministicCheck → List Finding × Bool × ℕ
run_checks goal artifact [] = ([], true, 0)
run_checks goal artifact (c ∷ cs) =
    let (findings, all_ok, used) = run_checks goal artifact cs in
    let result = c.run goal artifact in
    if result.ok
    then (findings, all_ok, suc used)
    else (finding_of c result ∷ findings, false, suc used)

unfoldable pub deterministic_failure_signature : List Finding → String
deterministic_failure_signature findings =
    concat ("deterministic:" ∷ join "," (map (λ f. f.title) findings) ∷ [])

module _ (now : ℕ → ℕ) where
  unfoldable pub run_deterministic_gate :
      Goal
      → Option Artifact
      → List DeterministicCheck
      → Budget
      → World
      → DeterministicGateResult × World
  run_deterministic_gate goal artifact [] budget w = (
    record { verdict = none; budget = budget; tool_calls_exhausted = false; tool_calls_used = 0 },
    w,
  )
  run_deterministic_gate goal artifact (c ∷ cs) budget w =
      let (findings, all_ok, used) = run_checks goal artifact (c ∷ cs) in
      let consumed = consume_n budget tool_calls used in
      let verdict : Verdict = record {
        pass = all_ok;
        findings = findings;
        failure_signature =
            if all_ok then none else some (deterministic_failure_signature findings);
      } in
      (
        record {
          verdict = some verdict;
          budget = consumed.budget;
          tool_calls_exhausted = consumed.exhausted;
          tool_calls_used = used;
        },
        append_event now goal.id (deterministic_checked verdict) w,
      )

-- The checks that an artifact fails, in order.
abbrev pub failing : Goal → Option Artifact → List DeterministicCheck → List DeterministicCheck
failing goal artifact cs = filter (λ c. not (c.run goal artifact).ok) cs

run_checks-failing :
    (goal : Goal) (artifact : Option Artifact) (cs : List DeterministicCheck)
    → ((run_checks goal artifact cs).0
        ≡ map (λ c. finding_of c (c.run goal artifact)) (failing goal artifact cs))
      × ((run_checks goal artifact cs).1 ≡ all (λ c. (c.run goal artifact).ok) cs)
      × ((run_checks goal artifact cs).2 ≡ length cs)
unfolding run_checks
run_checks-failing goal artifact [] = (refl, refl, refl)
run_checks-failing goal artifact (c ∷ cs) =
    let rest = run_checks-failing goal artifact cs in ground arith

-- The gate with at least one check gives a verdict that passes exactly when every check is met,
-- with one finding for each check that is not, in order; each check counts as one tool call; and
-- one event with that verdict is logged, whatever the outcome.
pub run_deterministic_gate-failing :
    (now : ℕ → ℕ) (goal : Goal) (artifact : Option Artifact) (c : DeterministicCheck)
    (cs : List DeterministicCheck) (budget : Budget) (w : World)
    → (v : Verdict) × ((run_deterministic_gate now goal artifact (c ∷ cs) budget w).0.verdict
        ≡ some v)
      × (v.pass ≡ all (λ k. (k.run goal artifact).ok) (c ∷ cs))
      × (v.findings
          ≡ map (λ k. finding_of k (k.run goal artifact)) (failing goal artifact (c ∷ cs)))
      × ((run_deterministic_gate now goal artifact (c ∷ cs) budget w).0.budget.tool_calls
          ≡ budget.tool_calls -ℤ pos (length (c ∷ cs)))
      × ((run_deterministic_gate now goal artifact (c ∷ cs) budget w).1.log
          ≡ w.log
            ++ record { at = now w.tick; goal_id = goal.id; body = deterministic_checked v } ∷ [])
unfolding run_deterministic_gate consume_n append_event
run_deterministic_gate-failing now goal artifact c cs budget w =
    let (findings, all_ok, used) = run_checks-failing goal artifact (c ∷ cs) in
    (_, refl, all_ok, findings, ap (λ n. budget.tool_calls -ℤ pos n) used, refl)
