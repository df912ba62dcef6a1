-- ===== src/Engine/Attempt/Stuck.antt =====
-- A ladder that names a tier twice, as the one of improve-factory in src/library/types/improve.ts,
-- in src/engine/attempt/.
use corellia.Prelude.{◌≡◌, Option, none, some, List, [], ◌∷◌, true, ◌&&◌, find?}
use corellia.Contract.Goal.{Tier, high}
use corellia.Contract.Verdict.{Finding}
use corellia.Engine.World.{World}
use corellia.Engine.Attempt.State.{AttemptRetryState}
use corellia.Engine.Attempt.Failure.{escalated, Failed, Means, is_transport, prescribed_repairs}
use corellia.Engine.Attempt.Transition.{Finish, tier_index_for, verdict_with_step_loop_finding}

abbrev pub high_twice : List Tier
high_twice = high ∷ high ∷ []

-- A transport failure that follows the same one, on the ladder that names `high` twice.
pub record IsStuck (m : Means) (tail : Option Finding) (f : Failed) : Type 0 where
  pub ladder : m.tier_ladder ≡ high_twice
  pub at_tier : f.tier ≡ high
  pub at_index : f.tier_index ≡ some 0
  pub lost : is_transport f.verdict ≡ true
  pub calm : find? (λ x. x.gating && x.escalated) f.verdict.findings ≡ none
  pub unprescribed : prescribed_repairs f.verdict.findings ≡ []
  pub again :
      f.prior_attempt
      ≡ some (record {
        artifact = some f.artifact;
        verdict = verdict_with_step_loop_finding f.verdict tail;
      })

module _ {Transcript : Type 0} (m : Means) (fin : Finish) (tail : Option Finding)
    (transcript : Option Transcript) where
  after_stuck : Failed → AttemptRetryState Transcript
  after_stuck f = record {
    budget = f.budget;
    tier = high;
    tier_index = tier_index_for m.tier_ladder high;
    prior_attempt = record {
      artifact = some f.artifact;
      verdict = verdict_with_step_loop_finding f.verdict tail;
    };
    prior_loop_transcript = transcript;
  }
