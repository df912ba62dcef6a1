-- ===== src/Engine/Attempt/Honest.antt =====
-- What src/engine/attempt/artifact-evaluation.ts lets through.
use corellia.Prelude.{◌≡◌, ◌≢◌, Option, none, some, [], true}
use corellia.Contract.Goal.{Goal}
use corellia.Contract.Report.{Artifact, Report}
use corellia.Contract.Verdict.{Verdict}
use corellia.Engine.World.{World}
use corellia.Engine.Attempt.State.{AttemptLoopState}
use corellia.Engine.Attempt.Authority.{check_emission_authority}
use corellia.Engine.Attempt.Evaluation.{Evaluation, Produced, EvaluationResult}
use corellia.Engine.Attempt.Authority.{Authority}
use corellia.Engine.Attempt.Delivered.{Delivered, Lets}

-- A denial has a blocker.
unfoldable Denies : Option Report × World → Type 0
Denies (none, w) = Unit
Denies (some r, w) = r.blockers ≢ []

-- A gate that gave no verdict, or one that passes, was met.
abbrev Clears : Type 0 → Option Verdict → Type 0
Clears M none = M
Clears M (some v) = v.pass ≡ true → M

module _ (e : Evaluation) {Transcript : Type 0} (p : Produced Transcript)
    (s : AttemptLoopState Transcript) (a : Artifact) where
  abbrev LetsOf : EvaluationResult Transcript × World → Type 0
  LetsOf r = Lets e p.tournament_ran r

  -- The artifact was authorized in some world.
  abbrev Authorized : Type 0
  Authorized =
      (w : World) × ((check_emission_authority e.authority e.goal a e.entry_risk w).0 ≡ none)
