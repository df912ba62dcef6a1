-- ===== src/Engine/Attempt/Failure.antt =====
-- src/engine/attempt/failure.ts: what is done about a failed attempt.
-- `repair` is the brain's, and gives none where it throws. The sentence on an empty artifact is a
-- parameter.
use corellia.Prelude.{
  ℕ, ◌+◌, zero, suc, String, Option, none, some, List, [], ◌∷◌, map, Bool, true, false, not, ◌&&◌,
  find?, str_eq, if◌then◌else◌, length, ltb,
}
use corellia.Prelude.Text.{concat}
use corellia.Contract.Goal.{Budget, Goal, Tier, Usage}
use corellia.Contract.Decision.{DecisionBrief}
use corellia.Contract.Report.{Artifact, Report}
use corellia.Contract.Verdict.{Finding, Verdict}
use corellia.Contract.Events.{blocked, emitted, repair_applied, tier_escalated}
use corellia.Engine.World.{World, append_event}
use corellia.Engine.TreeSpend.{debit_tree_state, has_reached_spend_ceiling}
use corellia.Engine.Blocking.{OnBrief, resolve}
use corellia.Engine.Reports.{
  blocked_report, escalated_brief, isomorphic_brief, non_convergence_brief,
}
use corellia.Engine.Attempt.State.{AttemptPrior}

pub data AttemptFailureResolution : Type 0 where
  repaired : Artifact → Budget → AttemptFailureResolution
  escalated : Tier → Budget → AttemptFailureResolution
  block : Report → AttemptFailureResolution

abbrev pub transport : String
transport = "step-loop:transport"

abbrev pub is_some_of : Option String → String → Bool
is_some_of none s = false
is_some_of (some t) s = str_eq t s

-- `verdict.failureSignature === 'step-loop:transport'`
abbrev pub is_transport : Verdict → Bool
is_transport v = is_some_of v.failure_signature transport

unfoldable pub isomorphic_failure : Option AttemptPrior → Verdict → Bool
isomorphic_failure prior v = if is_transport v then false else elim prior [
  | none ↦ false
  | some p ↦ elim v.failure_signature [
    | none ↦ false
    | some s ↦ is_some_of p.verdict.failure_signature s
  ]
]

abbrev prescription_of : Finding → List String → List String
prescription_of f rest = elim f.prescription [ none ↦ rest | some p ↦ p ∷ rest ]

unfoldable pub prescribed_repairs : List Finding → List String
prescribed_repairs [] = []
prescribed_repairs (f ∷ fs) =
    let rest = prescribed_repairs fs in
    if f.gating && not f.escalated then prescription_of f rest else rest

-- `tierLadder[index]`; an index of -1, which `indexOf` gives, is none.
abbrev pub rung : List Tier → ℕ → Option Tier
rung [] n = none
rung (t ∷ ts) zero = some t
rung (t ∷ ts) (suc n) = rung ts n

abbrev pub next_rung : List Tier → Option ℕ → Option Tier
next_rung ladder none = rung ladder 0
next_rung ladder (some i) = rung ladder (i + 1)

pub record Failed : Type 0 where
  pub goal : Goal
  pub artifact : Artifact
  pub verdict : Verdict
  pub budget : Budget
  pub tier : Tier
  pub tier_index : Option ℕ
  pub prior_attempt : Option AttemptPrior
  pub salvaged_artifact : Option Artifact

-- The callbacks of `resolveAttemptFailure`, and the rest of its surroundings.
pub record Means : Type 0 where
  pub now : ℕ → ℕ
  pub on_brief : OnBrief
  pub tier_ladder : List Tier
  pub repair : Goal → Artifact → List String → Tier → World → Option (Artifact × Usage) × World
  pub on_ceiling_reached : World → Report × World
  pub diagnosis : Artifact → Option String

titles : Verdict → List String
titles v = map (λ f. f.title) v.findings

module _ (m : Means) where
  unfoldable pub block_with_report :
      Goal → Report → DecisionBrief → World → AttemptFailureResolution × World
  block_with_report goal report brief w =
      let w' = append_event m.now goal.id (blocked brief (resolve m.on_brief brief)) w in
      (block report, append_event m.now goal.id (emitted report) w')

  -- From the tier ladder on.
  unfoldable pub climb : Failed → World → AttemptFailureResolution × World
  unfolding titles
  climb f w = elim (next_rung m.tier_ladder f.tier_index) [
    | some next ↦
        (escalated next f.budget, append_event m.now f.goal.id (tier_escalated f.tier next) w)
    | none ↦
        let again : Bool = elim f.prior_attempt [
          | none ↦ true
          | some p ↦ not (is_transport p.verdict)
        ] in
        if is_transport f.verdict && again
        then (escalated f.tier f.budget, w)
        else let brief = non_convergence_brief f.goal (m.diagnosis f.artifact) in
          block_with_report f.goal
            (blocked_report brief.question (titles f.verdict) f.salvaged_artifact) brief w
  ]

  -- After a repair: it is debited and logged, and the ceiling is looked at.
  unfoldable pub after_repair :
      Failed → List String → Artifact → Usage → World → AttemptFailureResolution × World
  after_repair f prescriptions artifact usage w =
      let w₁ = record w { tree = debit_tree_state w.tree usage } in
      let w₂ = append_event m.now f.goal.id (repair_applied prescriptions (some usage)) w₁ in
      if has_reached_spend_ceiling w₂.tree
      then (let (report, w₃) = m.on_ceiling_reached w₂ in (block report, w₃))
      else (repaired artifact f.budget, w₂)

  unfoldable pub try_repair : Failed → World → AttemptFailureResolution × World
  try_repair f w =
      let prescriptions = prescribed_repairs f.verdict.findings in
      if ltb 0 (length prescriptions)
      then (let (result, w') = m.repair f.goal f.artifact prescriptions f.tier w in
          elim result [
            | none ↦ climb f w'
            | some (artifact, usage) ↦ after_repair f prescriptions artifact usage w'
          ])
      else climb f w

  unfoldable pub resolve_attempt_failure : Failed → World → AttemptFailureResolution × World
  unfolding titles
  resolve_attempt_failure f w = elim (find? (λ x. x.gating && x.escalated) f.verdict.findings) [
    | some finding ↦
        block_with_report f.goal
          (blocked_report
            (concat ("Escalated finding requires human decision: " ∷ finding.title ∷ []))
            (titles f.verdict) f.salvaged_artifact)
          (escalated_brief f.goal finding) w
    | none ↦
        if isomorphic_failure f.prior_attempt f.verdict
        then (let signature : String = elim f.verdict.failure_signature [
          | none ↦ "undefined"
          | some s ↦ s
        ] in
            block_with_report f.goal
              (blocked_report
                (concat (
                  "Isomorphic failure detected (signature: " ∷ signature ∷ ") — escalating to block"
                  ∷ []))
                (titles f.verdict) f.salvaged_artifact)
              (isomorphic_brief f.goal signature) w)
        else try_repair f w
  ]
