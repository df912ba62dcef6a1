-- ===== src/Engine/Attempt/Authority.antt =====
-- src/engine/authority-gate.ts, src/library/risk.ts and src/engine/attempt/emission-authority.ts:
-- whether what was made may be emitted.
use corellia.Prelude.{
  ℕ, String, Option, none, some, List, [], ◌∷◌, map, Bool, true, false, not, ◌&&◌, ◌||◌, any,
  if◌then◌else◌, length, ltb, ◌==◌,
}
use corellia.Prelude.Text.{concat, contains}
use corellia.Contract.Goal.{Goal}
use corellia.Contract.Decision.{DecisionBrief}
use corellia.Contract.Report.{Artifact, ArtifactKind, FileBody, Report}
use corellia.Contract.Verdict.{RiskClass, SensitivityFact}
use corellia.Contract.Events.{GateResolution, blocked, emitted, gate_decision, risk_classified}
use corellia.Engine.World.{World, append_event}
use corellia.Engine.Reports.{blocked_report, gate_denied_brief}
use corellia.Engine.Blocking.{OnBrief, resolve}

-- A text that starts with another contains it.
unfoldable pub path_matches_pattern : String → String → Bool
path_matches_pattern path pattern = contains (λ n. n) pattern path

-- `riskOrder`
abbrev pub order : RiskClass → ℕ
order RiskClass.low = 0
order RiskClass.medium = 1
order RiskClass.high = 2

abbrev pub higher : RiskClass → RiskClass → RiskClass
higher a b = if ltb (order a) (order b) then b else a

-- The loop over the facts; the early return at high, which nothing raises, is left out.
unfoldable pub highest_risk : List String → List SensitivityFact → RiskClass → RiskClass
highest_risk paths [] highest = highest
highest_risk paths (f ∷ fs) highest =
    let raised = highest_risk paths fs (higher highest f.risk) in
    let kept = highest_risk paths fs highest in
    if any (λ p. path_matches_pattern p f.pattern_text) paths then raised else kept

unfoldable pub classify_risk : List String → List SensitivityFact → RiskClass
classify_risk paths facts =
    if length paths == 0 || length facts == 0
    then RiskClass.low
    else highest_risk paths facts RiskClass.low

abbrev pub is_high : RiskClass → Bool
is_high RiskClass.low = false
is_high RiskClass.medium = false
is_high RiskClass.high = true

-- What the gate asks: whether a risk is granted. Nobody to ask is a denial.
pub record Authority : Type 0 where
  pub now : ℕ → ℕ
  pub on_gate : Option (Goal → RiskClass → Bool)
  pub on_brief : OnBrief
  pub sensitivity : List SensitivityFact

module _ (a : Authority) where
  abbrev pub is_granted : Goal → RiskClass → Bool
  is_granted goal risk = elim a.on_gate [ none ↦ false | some ask ↦ ask goal risk ]

  -- A denial is logged, blocked and emitted, with the message that the caller makes of the brief.
  unfoldable pub run_authority_gate :
      Bool → Goal → RiskClass → Bool → (DecisionBrief → String) → World → Option Report × World
  run_authority_gate should_gate goal risk type_gated denied_message w =
      let brief = gate_denied_brief goal risk type_gated in
      let report = blocked_report (denied_message brief) [] none in
      let granted = append_event a.now goal.id (gate_decision GateResolution.granted) w in
      let denied = append_event a.now goal.id (gate_decision GateResolution.denied) w in
      let blocked_world =
        append_event a.now goal.id (blocked brief (resolve a.on_brief brief)) denied in
      if not should_gate
      then (none, w)
      else if is_granted goal risk
      then (none, granted)
      else (some report, append_event a.now goal.id (emitted report) blocked_world)

  abbrev pub denied_at_emission : DecisionBrief → String
  denied_at_emission brief = concat (
      "Authority gate denied at emission (artifact touched sensitive paths): " ∷ brief.question
      ∷ [])

  -- Files are classified by their paths; a report is a denial.
  unfoldable pub check_files : Goal → List FileBody → RiskClass → World → Option Report × World
  check_files goal files entry_risk w =
      let risk = classify_risk (map (λ f. f.path) files) a.sensitivity in
      run_authority_gate (is_high risk && not (is_high entry_risk)) goal risk false
        denied_at_emission (append_event a.now goal.id (risk_classified risk) w)

  -- A text, or no file, needs no authority.
  unfoldable pub check_kind :
      Goal → ArtifactKind → Option (List FileBody) → RiskClass → World → Option Report × World
  unfolding check_files
  check_kind goal ArtifactKind.text files entry_risk w = (none, w)
  check_kind goal ArtifactKind.files none entry_risk w = (none, w)
  check_kind goal ArtifactKind.files (some []) entry_risk w = (none, w)
  check_kind goal ArtifactKind.files (some (f ∷ fs)) entry_risk w =
      check_files goal (f ∷ fs) entry_risk w

  unfoldable pub check_emission_authority :
      Goal → Artifact → RiskClass → World → Option Report × World
  unfolding check_kind
  check_emission_authority goal artifact entry_risk w =
      check_kind goal artifact.kind artifact.files entry_risk w
