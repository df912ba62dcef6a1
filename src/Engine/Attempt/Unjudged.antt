-- ===== src/Engine/Attempt/Unjudged.antt =====
-- The losing winner of a tournament of src/engine/attempt/leaf-tournament.ts is delivered.
use corellia.Prelude.{
  ◌≡◌, refl, ap, ◌∙◌, String, Option, none, some, List, [], ◌∷◌, true, false, any,
}
use corellia.Contract.Report.{Artifact, ArtifactKind}
use corellia.Engine.World.{World}
use corellia.Engine.Reports.{build_report}
use corellia.Engine.DeterministicGate.{run_deterministic_gate}
use corellia.Engine.Attempt.State.{AttemptLoopState}
use corellia.Engine.Attempt.Refusal.{is_delivery_refusal}
use corellia.Engine.Attempt.Authority.{check_emission_authority, check_kind}
use corellia.Engine.Attempt.Tournament.{Candidate, select_winner, select_winner-passes}
use corellia.Engine.Attempt.Evaluation.{
  Evaluation, Produced, evaluated, emit_successful_artifact, judge_and_emit, after_authority,
  refuse_or_authorize, after_gate, evaluate_attempt_artifact, salvage_make_artifact,
}

module _ (e : Evaluation) {Transcript : Type 0} (p : Produced Transcript) where
  unjudged :
      (s : AttemptLoopState Transcript) (a : Artifact) (type : Option String) (w : World)
      → p.tournament_ran ≡ true
      → judge_and_emit e p s a type w
        ≡ (evaluated (build_report e.goal a), (emit_successful_artifact e a w).1)
  unfolding judge_and_emit emit_successful_artifact
  unjudged s a none w ran = refl
  unjudged s a (some type) w ran = rw ran refl

-- The winner among candidates of which none passes its judge has a verdict that fails; and where it
-- is a text that refuses nothing, of a type without deterministic checks, and the worktree holds
-- nothing, its evaluation sends up the report of a success, whatever the judge would say.
pub losing_winner_delivered :
    (e : Evaluation) {Transcript : Type 0} (p : Produced Transcript) (first : Candidate)
    (rest : List Candidate) (w : World)
    → any (λ c. c.verdict.pass) (first ∷ rest) ≡ false
    → p.artifact ≡ (select_winner first rest).artifact
    → p.tournament_ran ≡ true
    → p.artifact.kind ≡ ArtifactKind.text
    → is_delivery_refusal p.artifact ≡ false
    → e.type_def.deterministic ≡ []
    → salvage_make_artifact e p.artifact w ≡ p.artifact
    → ((select_winner first rest).verdict.pass ≡ false)
      × ((evaluate_attempt_artifact e p w).0 ≡ evaluated (build_report e.goal p.artifact))
unfolding evaluate_attempt_artifact after_gate refuse_or_authorize after_authority
    check_emission_authority check_kind run_deterministic_gate
losing_winner_delivered e p first rest w lost won ran kind delivers unchecked kept = (
  select_winner-passes first rest ∙ lost,
  rw (kept, unchecked, delivers, kind)
      (ap (λ r. r.0)
        (unjudged _ (record p { artifact = record p.artifact { kind = ArtifactKind.text } }) _ _
          e.type_def.judge_type w ran)),
)
