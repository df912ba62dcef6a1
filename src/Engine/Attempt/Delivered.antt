-- ===== src/Engine/Attempt/Delivered.antt =====
-- What a failed attempt of src/engine/attempt/ may still deliver: what a repair made and passed.
use corellia.Prelude.{
  ◌≡◌, ◌≢◌, ◌⊎◌, inl, inr, refl, subst, String, Option, none, some, List, [], Bool, true, false,
  all, if_intro, option_intro, find?, ◌&&◌, ltb, length, arith,
}
use corellia.Contract.Goal.{Budget, Tier, Usage}
use corellia.Contract.Report.{Artifact, Report}
use corellia.Contract.Verdict.{Verdict}
use corellia.Engine.World.{World}
use corellia.Engine.Reports.{build_report, blocked_report}
use corellia.Engine.Blocking.{ceiling_report, run_block}
use corellia.Engine.Attempt.State.{
  AttemptLoopState, ArtifactFailureTransition, emitted, ceiling, blocked, retry,
  continue_after_artifact_failure,
}
use corellia.Engine.Attempt.Failure.{
  AttemptFailureResolution, repaired, escalated, block, Failed, next_rung, climb, block_with_report,
  after_repair, try_repair, prescribed_repairs, isomorphic_failure, resolve_attempt_failure,
}
use corellia.Contract.Verdict.{Finding}
use corellia.Engine.Attempt.Recheck.{recheck_artifact_after_repair}
use corellia.Engine.Attempt.Gated.{recheck_passed}
use corellia.Engine.Attempt.Transition.{finish_repaired_attempt, transition_artifact_failure}
use corellia.Engine.Attempt.Authority.{check_emission_authority}
use corellia.Engine.Attempt.Evaluation.{
  Evaluation, Produced, EvaluationResult, evaluated, again, halted, means_of, finish,
  emit_successful_artifact, after_failing_verdict, handle_failing_verdict,
}
use corellia.Engine.Attempt.Refusal.{is_delivery_refusal}

-- The artifact meets the checks of the goal's type.
abbrev pub MeetsChecks : Evaluation → Artifact → Type 0
MeetsChecks e a = all (λ k. (k.run e.goal (some a)).ok) e.type_def.deterministic ≡ true

-- The judge of this type was asked about the artifact, at some tier, and let it pass.
abbrev pub PassedJudge : Evaluation → String → Artifact → Type 0
PassedJudge e type a =
    (tier : Tier) × (w : World) × ((e.judge type e.goal a tier w).0.0.pass ≡ true)

-- An artifact that an attempt made: no refusal, not denied, and passed by the judge of its type,
-- unless a tournament ran.
pub record IsDirect (e : Evaluation) (tournament_ran : Bool) (a : Artifact) : Type 0 where
  pub delivers : is_delivery_refusal a ≡ false
  pub authorized :
      (w : World) × ((check_emission_authority e.authority e.goal a e.entry_risk w).0 ≡ none)
  pub judged :
      (type : String)
      → e.type_def.judge_type ≡ some type
      → (tournament_ran ≡ true) ⊎ PassedJudge e type a

-- An artifact that a repair made: passed by the judge of its type.
abbrev pub IsRepaired : Evaluation → Artifact → Type 0
IsRepaired e a = (type : String) → e.type_def.judge_type ≡ some type → PassedJudge e type a

-- What a report without a blocker delivers.
abbrev pub Delivered : Evaluation → Bool → Artifact → Type 0
Delivered e ran a = MeetsChecks e a × (IsDirect e ran a ⊎ IsRepaired e a)

abbrev pub Honest : Evaluation → Bool → Report → Type 0
Honest e ran r =
    (r.blockers ≢ []) ⊎ ((a : Artifact) × (r ≡ build_report e.goal a) × Delivered e ran a)

pub blocked-blockers :
    (reason : String) (findings : List String) (a : Option Artifact)
    → (blocked_report reason findings a).blockers ≢ []
unfolding blocked_report
blocked-blockers reason findings a h = ground arith

-- Of a resolution, a transition and an evaluation.
unfoldable Blocks : AttemptFailureResolution × World → Type 0
Blocks (repaired a b, w) = Unit
Blocks (escalated t b, w) = Unit
Blocks (block r, w) = r.blockers ≢ []

unfoldable Carries :
    {Transcript : Type 0}
    → Evaluation
    → Bool
    → ArtifactFailureTransition Transcript × World
    → Type 0
Carries e ran (emitted r, w) = Honest e ran r
Carries e ran (ceiling, w) = Unit
Carries e ran (blocked r, w) = Honest e ran r
Carries e ran (retry s, w) = Unit

unfoldable pub Lets :
    {Transcript : Type 0} → Evaluation → Bool → EvaluationResult Transcript × World → Type 0
Lets e ran (evaluated r, w) = Honest e ran r
Lets e ran (again s, w) = Unit
Lets e ran (halted, w) = Unit

resolution_intro :
    {B : Type 0} (P : B → Type 0) (r : AttemptFailureResolution) {x : Artifact → Budget → B}
    {y : Tier → Budget → B} {z : Report → B}
    → ((a : Artifact) (b : Budget) → P (x a b))
    → ((t : Tier) (b : Budget) → P (y t b))
    → ((report : Report) → r ≡ block report → P (z report))
    → P (elim r as (λ _. B) [
      | repaired a b ↦ x a b
      | escalated t b ↦ y t b
      | block report ↦ z report
    ])
resolution_intro P (repaired a b) h k l = h a b
resolution_intro P (escalated t b) h k l = k t b
resolution_intro P (block report) h k l = l report refl

block-report :
    (r : AttemptFailureResolution × World) (report : Report)
    → Blocks r
    → r.0 ≡ block report
    → report.blockers ≢ []
block-report r report h q = unfold Blocks in subst (λ x. Blocks (x, r.1)) q h

module _ (e : Evaluation) where
  repaired-Blocks : (a : Artifact) (b : Budget) (w : World) → Blocks (repaired a b, w)
  unfolding Blocks
  repaired-Blocks a b w = tt

  escalated-Blocks : (t : Tier) (b : Budget) (w : World) → Blocks (escalated t b, w)
  unfolding Blocks
  escalated-Blocks t b w = tt

  block-Blocks :
      (reason : String) (findings : List String) (a : Option Artifact) (w : World)
      → Blocks (block (blocked_report reason findings a), w)
  unfolding Blocks
  block-Blocks reason findings a w = blocked-blockers reason findings a

  ceiling-Blocks :
      (w : World)
      → Blocks (
        block (ceiling_report e.now e.on_brief e.goal w).0,
        (ceiling_report e.now e.on_brief e.goal w).1,
      )
  unfolding ceiling_report run_block
  ceiling-Blocks w = block-Blocks _ [] none _

  climb-Blocks : (f : Failed) (w : World) → Blocks (climb (means_of e) f w)
  unfolding climb block_with_report
  climb-Blocks f w =
      option_intro Blocks (next_rung e.tier_ladder f.tier_index)
        (search (if_intro Blocks, escalated-Blocks, block-Blocks))
        (λ next. escalated-Blocks next f.budget _)

  after_repair-Blocks :
      (f : Failed) (ps : List String) (a : Artifact) (u : Usage) (w : World)
      → Blocks (after_repair (means_of e) f ps a u w)
  unfolding after_repair
  after_repair-Blocks f ps a u w = search (if_intro Blocks, repaired-Blocks, ceiling-Blocks)

  try_repair-Blocks : (f : Failed) (w : World) → Blocks (try_repair (means_of e) f w)
  unfolding try_repair
  try_repair-Blocks f w =
      let ps = prescribed_repairs f.verdict.findings in
      if_intro Blocks (ltb 0 (length ps))
        (λ _.
          option_intro Blocks (e.repair f.goal f.artifact ps f.tier w).0 (climb-Blocks f _)
            (λ r. after_repair-Blocks f ps r.0 r.1 _))
        (λ _. climb-Blocks f w)

  resolve-Blocks : (f : Failed) (w : World) → Blocks (resolve_attempt_failure (means_of e) f w)
  unfolding resolve_attempt_failure block_with_report
  resolve-Blocks f w =
      option_intro Blocks (find? (λ x. x.gating && x.escalated) f.verdict.findings)
        (if_intro Blocks (isomorphic_failure f.prior_attempt f.verdict)
          (λ _. block-Blocks _ _ f.salvaged_artifact _) (λ _. try_repair-Blocks f w))
        (λ finding. block-Blocks _ _ f.salvaged_artifact _)

  rechecked :
      (f : Failed) (a : Artifact) (b : Budget) (w : World) {ran : Bool}
      → (recheck_artifact_after_repair e.now e.judge e.type_def e.goal a b f.tier w).0.passed ≡ true
      → Delivered e ran a
  rechecked f a b w t =
      let (ok, judged) = recheck_passed e.now e.judge e.type_def e.goal a b f.tier w t in
      (ok, inr (λ type q. (f.tier, _, judged type q)))

  -- A repaired artifact that is emitted passed its recheck.
  finish-Carries :
      {Transcript : Type 0} (ran : Bool) (tail : Option Finding) (transcript : Option Transcript)
      (f : Failed) (a : Artifact) (b : Budget) (w : World)
      → Carries e ran (finish_repaired_attempt (means_of e) (finish e) tail transcript f a b w)
  unfolding finish_repaired_attempt
  finish-Carries ran tail transcript f a b w =
      let recheck = recheck_artifact_after_repair e.now e.judge e.type_def e.goal a b f.tier w in
      if_intro (Carries e ran) recheck.0.ceiling (λ _. unfold Carries in tt)
        (λ _.
          if_intro (Carries e ran) recheck.0.passed
            (λ t. unfold Carries emit_successful_artifact in inr (a, refl, rechecked f a b w t))
            (λ _. unfold Carries in tt))

  transition-Carries :
      {Transcript : Type 0} (ran : Bool) (tail : Option Finding) (transcript : Option Transcript)
      (f : Failed) (w : World)
      → Carries e ran (transition_artifact_failure (means_of e) (finish e) tail transcript f w)
  unfolding transition_artifact_failure
  transition-Carries ran tail transcript f w =
      let r = resolve_attempt_failure (means_of e) f w in
      resolution_intro (Carries e ran) r.0 (λ a b. finish-Carries ran tail transcript f a b r.1)
        (λ t b. unfold Carries in tt)
        (λ report q. unfold Carries in inl (block-report r report (resolve-Blocks f w) q))

  continue-Lets :
      {Transcript : Type 0} (ran : Bool) (s : AttemptLoopState Transcript)
      (t : ArtifactFailureTransition Transcript × World)
      → Carries e ran t
      → Lets e ran (after_failing_verdict e s (continue_after_artifact_failure t.0), t.1)
  unfolding Carries Lets after_failing_verdict continue_after_artifact_failure
  continue-Lets ran s (emitted r, w) h = h
  continue-Lets ran s (ceiling, w) h = tt
  continue-Lets ran s (blocked r, w) h = h
  continue-Lets ran s (retry x, w) h = tt

  pub handle_failing_verdict-Lets :
      {Transcript : Type 0} (p : Produced Transcript) (s : AttemptLoopState Transcript)
      (a : Artifact) (v : Verdict) (w : World)
      → Lets e p.tournament_ran (handle_failing_verdict e p s a v w)
  unfolding handle_failing_verdict
  handle_failing_verdict-Lets p s a v w =
      continue-Lets p.tournament_ran s _
        (transition-Carries p.tournament_ran p.tail_finding p.transcript_tail _ w)
