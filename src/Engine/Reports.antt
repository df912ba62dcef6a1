-- ===== src/Engine/Reports.antt =====
-- src/engine/reports.ts: the reports and the briefs that the engine writes itself.
use corellia.Prelude.{String, Option, none, some, List, [], ◌∷◌, map, Bool, if◌then◌else◌}
use corellia.Prelude.Text.{concat}
use corellia.Prelude.Int.{pos}
use corellia.Contract.Goal.{Goal}
use corellia.Contract.Decision.{DecisionBrief, deny, Teaching}
use corellia.Contract.Events.{BudgetDimension, attempts, tokens, tool_calls, wall_clock_ms}
use corellia.Contract.Report.{Artifact, Report}
use corellia.Contract.Verdict.{Finding, RiskClass}

unfoldable pub blocked_report : String → List String → Option Artifact → Report
blocked_report reason findings salvaged = record {
  artifact = salvaged;
  proof = [];
  lessons = [];
  memories_used = [];
  blockers = reason ∷ [];
  findings = findings;
  learned = "";
  scope_insufficiency = none;
  partial_delivery = none;
}

unfoldable pub build_report : Goal → Artifact → Report
build_report goal artifact = record {
  artifact = some artifact;
  proof = [];
  lessons = [];
  memories_used = map (λ m. m.id) goal.memories;
  blockers = [];
  findings = [];
  learned = "";
  scope_insufficiency = none;
  partial_delivery = none;
}

-- The fields that every brief of this file shares.
abbrev brief : Goal → String → Option Teaching → DecisionBrief
brief goal question teaching = record {
  question = question;
  options = "deny" ∷ "park" ∷ "bounce" ∷ [];
  links = goal.id ∷ [];
  deadline_ms = pos 30000;
  on_timeout = deny;
  teaching = teaching;
}

abbrev risk_name : RiskClass → String
risk_name RiskClass.low = "low"
risk_name RiskClass.medium = "medium"
risk_name RiskClass.high = "high"

unfoldable pub gate_denied_brief : Goal → RiskClass → Bool → DecisionBrief
gate_denied_brief goal risk type_level =
    let reason : String =
      if type_level
      then concat ("type \"" ∷ goal.type ∷ "\" carries a type-level authority gate" ∷ [])
      else concat (
          "instance risk is \"" ∷ risk_name risk ∷ "\" (scope touches a sensitive surface)" ∷ []) in
    brief goal
      (concat (
        "Goal \"" ∷ goal.title ∷ "\" requires authority grant: " ∷ reason ∷ ". Grant or deny?"
        ∷ []))
      (some (record {
        finding = reason;
        confidence = "high";
        costs =
            "grant: goal proceeds; deny: goal is blocked; park: goal waits for human decision (TTL applies)";
        recommendation = "deny";
      }))

unfoldable pub unknown_type_brief : Goal → DecisionBrief
unknown_type_brief goal =
    brief goal
      (concat ("Unknown goal type: \"" ∷ goal.type ∷ "\". How should this goal be handled?" ∷ []))
      none

abbrev dimension_name : BudgetDimension → String
dimension_name attempts = "attempts"
dimension_name tokens = "tokens"
dimension_name tool_calls = "toolCalls"
dimension_name wall_clock_ms = "wallClockMs"

unfoldable pub exhausted_brief : Goal → BudgetDimension → DecisionBrief
exhausted_brief goal dim =
    brief goal
      (concat (
        "Goal \""
        ∷ goal.title
        ∷ "\" exhausted its "
        ∷ dimension_name dim
        ∷ " budget. How should it be handled?"
        ∷ []))
      none

unfoldable pub escalated_brief : Goal → Finding → DecisionBrief
escalated_brief goal finding =
    brief goal
      (concat (
        "Goal \"" ∷ goal.title ∷ "\" has an escalated finding requiring human decision: \""
        ∷ finding.title ∷ "\"" ∷ []))
      none

unfoldable pub isomorphic_brief : Goal → String → DecisionBrief
isomorphic_brief goal signature =
    brief goal
      (concat (
        "Goal \"" ∷ goal.title ∷ "\" is repeating the same failure (signature: \"" ∷ signature
        ∷ "\"). Needs human resolution." ∷ []))
      none

unfoldable pub non_convergence_brief : Goal → Option String → DecisionBrief
non_convergence_brief goal diagnosis =
    let base = concat ("Goal \"" ∷ goal.title ∷ "\" failed at the highest tier" ∷ []) in
    brief goal
      (elim diagnosis [
        | some d ↦ concat (base ∷ " — " ∷ d ∷ " How should it be handled?" ∷ [])
        | none ↦ concat (
            base ∷ " with no actionable repair — it cannot converge. How should it be handled?"
            ∷ [])
      ])
      none
