-- ===== src/Engine/Attempt/Evaluation.antt =====
-- src/engine/attempt/artifact-evaluation.ts, with success.ts: the gates of one attempt's artifact.
-- The judge is `judgeLeafArtifact` with its brain. What a worktree holds is read by git.
use corellia.Prelude.{ℕ, String, Option, none, some, List, Bool, false, not, if◌then◌else◌}
use corellia.Contract.Goal.{Goal, Kind, Tier, Usage}
use corellia.Contract.GoalType.{GoalTypeDef}
use corellia.Contract.Report.{Artifact, ArtifactKind, Report}
use corellia.Contract.Verdict.{Finding, RiskClass, Verdict}
use corellia.Contract.Events.{budget_exhausted, deterministic_checked, emitted, tool_calls}
use corellia.Engine.World.{World, append_event}
use corellia.Engine.TreeSpend.{debit_tree_state, has_reached_spend_ceiling}
use corellia.Engine.Budget.{debit_token_usage}
use corellia.Engine.Reports.{build_report, exhausted_brief}
use corellia.Engine.Blocking.{OnBrief, run_block, ceiling_report}
use corellia.Engine.DeterministicGate.{run_deterministic_gate}
use corellia.Engine.Attempt.State.{
  AttemptLoopState, AttemptContinuation, with_attempt_budget, with_attempt_retry,
  continue_after_artifact_failure,
}
use corellia.Engine.Attempt.Failure.{Means, Failed}
use corellia.Engine.Attempt.Recheck.{Judge, recheck_artifact_after_repair}
use corellia.Engine.Attempt.Transition.{Finish, transition_artifact_failure}
use corellia.Engine.Attempt.Refusal.{is_delivery_refusal, delivery_refusal_verdict}
use corellia.Engine.Attempt.Authority.{Authority, check_emission_authority}

pub data EvaluationResult (Transcript : Type 0) : Type 0 where
  evaluated : Report → EvaluationResult Transcript
  again : AttemptLoopState Transcript → EvaluationResult Transcript
  halted : EvaluationResult Transcript

-- What an evaluation is given besides the artifact. A worktree without changes in scope is none.
pub record Evaluation : Type 0 where
  pub now : ℕ → ℕ
  pub on_brief : OnBrief
  pub tier_ladder : List Tier
  pub repair : Goal → Artifact → List String → Tier → World → Option (Artifact × Usage) × World
  pub diagnosis : Artifact → Option String
  pub authority : Authority
  pub judge : Judge
  pub goal : Goal
  pub type_def : GoalTypeDef
  pub entry_risk : RiskClass
  pub enforce_tool_call_budget : Bool
  pub check_sandbox : Option (World → Option Artifact)
  pub sandbox : Option (World → Option Artifact)
  pub persist : Goal → Artifact → World → World

-- What a production hands to its evaluation.
pub record Produced (Transcript : Type 0) : Type 0 where
  pub artifact : Artifact
  pub state : AttemptLoopState Transcript
  pub transcript_tail : Option Transcript
  pub tail_finding : Option Finding
  pub tournament_ran : Bool

module _ (e : Evaluation) where
  -- `handleAttemptFailure`: the means of the resolution of a failure.
  abbrev pub means_of : Means
  means_of = record {
    now = e.now;
    on_brief = e.on_brief;
    tier_ladder = e.tier_ladder;
    repair = e.repair;
    on_ceiling_reached = ceiling_report e.now e.on_brief e.goal;
    diagnosis = e.diagnosis;
  }

  unfoldable pub emit_successful_artifact : Artifact → World → Report × World
  emit_successful_artifact artifact w =
      let report = build_report e.goal artifact in
      (report, append_event e.now e.goal.id (emitted report) (e.persist e.goal artifact w))

  -- Prose of a make goal gives way to the files that were written.
  unfoldable pub salvage_make_artifact : Artifact → World → Artifact
  salvage_make_artifact artifact w = elim e.type_def.kind [
    | Kind.make ↦ elim artifact.kind [
      | ArtifactKind.files ↦ artifact
      | ArtifactKind.text ↦ elim e.check_sandbox [
        | none ↦ artifact
        | some read ↦ elim (read w) [ none ↦ artifact | some written ↦ written ]
      ]
    ]
    | _ ↦ artifact
  ]

  -- On a block, the files of a make goal's worktree.
  unfoldable pub block_salvage : World → Option Artifact
  block_salvage w = elim e.type_def.kind [
    | Kind.make ↦ elim e.sandbox [ none ↦ none | some read ↦ read w ]
    | _ ↦ none
  ]

  abbrev pub finish : Finish
  finish = record {
    recheck = recheck_artifact_after_repair e.now e.judge e.type_def e.goal;
    emit_success = emit_successful_artifact;
  }

  module _ {Transcript : Type 0} where
    abbrev pub failed_of : AttemptLoopState Transcript → Artifact → Verdict → World → Failed
    failed_of s artifact verdict w = record {
      goal = e.goal;
      artifact = artifact;
      verdict = verdict;
      budget = s.budget;
      tier = s.tier;
      tier_index = s.tier_index;
      prior_attempt = s.prior_attempt;
      salvaged_artifact = block_salvage w;
    }

    unfoldable pub after_failing_verdict :
        AttemptLoopState Transcript → AttemptContinuation Transcript → EvaluationResult Transcript
    after_failing_verdict s AttemptContinuation.ceiling = halted
    after_failing_verdict s (AttemptContinuation.return report) = evaluated report
    after_failing_verdict s (AttemptContinuation.retry r) = again (with_attempt_retry s r)

    unfoldable pub handle_failing_verdict :
        Produced Transcript
        → AttemptLoopState Transcript
        → Artifact
        → Verdict
        → World
        → EvaluationResult Transcript × World
    unfolding after_failing_verdict
    handle_failing_verdict p s artifact verdict w =
        let (failure, w') =
          transition_artifact_failure means_of finish p.tail_finding p.transcript_tail
            (failed_of s artifact verdict w) w in
        (after_failing_verdict s (continue_after_artifact_failure failure), w')

    -- After the authority: the judge, unless a tournament ran, and the emission.
    unfoldable pub judge_and_emit :
        Produced Transcript
        → AttemptLoopState Transcript
        → Artifact
        → Option String
        → World
        → EvaluationResult Transcript × World
    judge_and_emit p s artifact none w =
        let (report, w') = emit_successful_artifact artifact w in (evaluated report, w')
    judge_and_emit p s artifact (some type) w =
        let ((verdict, usage), w₁) = e.judge type e.goal artifact s.tier w in
        let w₂ = record w₁ { tree = debit_tree_state w₁.tree usage } in
        let (budget, w₃) = debit_token_usage e.now e.goal false usage s.budget w₂ in
        let failing = handle_failing_verdict p (with_attempt_budget s budget) artifact verdict w₃ in
        let unjudged = emit_successful_artifact artifact w in
        let passed = emit_successful_artifact artifact w₃ in
        if p.tournament_ran
        then (evaluated unjudged.0, unjudged.1)
        else if has_reached_spend_ceiling w₂.tree
        then (halted, w₂)
        else if not verdict.pass
        then failing
        else (evaluated passed.0, passed.1)

    unfoldable pub after_authority :
        Produced Transcript
        → AttemptLoopState Transcript
        → Artifact
        → Option Report × World
        → EvaluationResult Transcript × World
    unfolding judge_and_emit
    after_authority p s artifact (some report, w) = (evaluated report, w)
    after_authority p s artifact (none, w) = judge_and_emit p s artifact e.type_def.judge_type w

    -- The floor below the judges: a text that refuses fails.
    unfoldable pub refuse_or_authorize :
        Produced Transcript
        → AttemptLoopState Transcript
        → Artifact
        → World
        → EvaluationResult Transcript × World
    unfolding handle_failing_verdict after_authority
    refuse_or_authorize p s artifact w =
        let refused =
          handle_failing_verdict p s artifact delivery_refusal_verdict
            (append_event e.now e.goal.id (deterministic_checked delivery_refusal_verdict) w) in
        let authorized =
          after_authority p s artifact
            (check_emission_authority e.authority e.goal artifact e.entry_risk w) in
        if is_delivery_refusal artifact then refused else authorized

    -- With the verdict of the deterministic gate, if it gave one.
    unfoldable pub after_gate :
        Produced Transcript
        → AttemptLoopState Transcript
        → Artifact
        → Option Verdict
        → Bool
        → World
        → EvaluationResult Transcript × World
    unfolding handle_failing_verdict refuse_or_authorize
    after_gate p s artifact none exhausted w = refuse_or_authorize p s artifact w
    after_gate p s artifact (some verdict) exhausted w =
        let warned = append_event e.now e.goal.id (budget_exhausted tool_calls) w in
        let w' : World = if exhausted then warned else w in
        let block = run_block e.now e.on_brief e.goal (exhausted_brief e.goal tool_calls) warned in
        let failing = handle_failing_verdict p s artifact verdict w' in
        let passing = refuse_or_authorize p s artifact w' in
        if (if exhausted then e.enforce_tool_call_budget else false)
        then (evaluated block.0, block.1)
        else if not verdict.pass
        then failing
        else passing

    unfoldable pub evaluate_attempt_artifact :
        Produced Transcript → World → EvaluationResult Transcript × World
    unfolding after_gate
    evaluate_attempt_artifact p w =
        let artifact = salvage_make_artifact p.artifact w in
        let (gate, w') =
          run_deterministic_gate e.now e.goal (some artifact) e.type_def.deterministic
            p.state.budget w in
        after_gate p (with_attempt_budget p.state gate.budget) artifact gate.verdict
          gate.tool_calls_exhausted w'
