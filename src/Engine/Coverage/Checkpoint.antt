-- ===== src/Engine/Coverage/Checkpoint.antt =====
-- src/engine/coverage-checkpoint.ts: the artifacts that HEAD has left behind, validated on read.
use corellia.Prelude.{ℕ, String, Option, none, List, [], ◌∷◌, ◌++◌, Bool, str_eq, if◌then◌else◌}
use corellia.Prelude.Text.{concat}
use corellia.Contract.Goal.{Goal, Trust}
use corellia.Contract.Decision.{ChildPlan}
use corellia.Contract.Knowledge.{KnowledgeArtifact, KnowledgeCategory, Confidence}
use corellia.Contract.Events.{Checkpoint, Freshness, knowledge_checked, stale_validated, invalid}
use corellia.Engine.World.{World, append_event}
use corellia.Engine.Fallible.{Fallible, returns, throws}
use corellia.Engine.Coverage.Policy.{
  KnowledgeForCoverage, CoverageArtifact, MissingRequirement, category_name,
}

-- The knowledge that the engine is given. It reads the store and may throw.
pub record KnowledgeGateway : Type 0 where
  pub query : String → World → Fallible KnowledgeForCoverage × World
  pub validate : KnowledgeArtifact → World → Fallible Bool × World
  pub mint_comprehension : List MissingRequirement → List ChildPlan
  pub region_exists : Option (String → String → World → Bool)

pub record CheckpointResult : Type 0 where
  pub refresh_children : List ChildPlan
  pub validated_ok : List KnowledgeCategory
  pub refreshed_categories : List KnowledgeCategory

-- A category is validated, or its artifact is to be made again.
abbrev pub add_validated : KnowledgeCategory → CheckpointResult → CheckpointResult
add_validated c r = record r { validated_ok = c ∷ r.validated_ok }

abbrev pub add_refresh : KnowledgeCategory → List ChildPlan → CheckpointResult → CheckpointResult
add_refresh c plans r = record r {
  refresh_children = plans ++ r.refresh_children;
  refreshed_categories = c ∷ r.refreshed_categories;
}

-- What is found later comes after; a call that throws ends the loop.
abbrev pub and_then :
    (CheckpointResult → CheckpointResult)
    → Fallible CheckpointResult × World
    → Fallible CheckpointResult × World
and_then f (returns r, w) = (returns (f r), w)
and_then f (throws m, w) = (throws m, w)

module _ (now : ℕ → ℕ) (gateway : KnowledgeGateway) (goal : Goal) (repo_root head_sha : String)
    (checkpoint : Option Checkpoint) where
  unfoldable pub full_artifact : CoverageArtifact → KnowledgeArtifact
  full_artifact a = record {
    repo_root = repo_root;
    category = a.category;
    generated_at_sha = a.generated_at_sha;
    confidence = Confidence.medium;
    status = Trust.provisional;
    pointers = [];
    summary = "";
  }

  unfoldable pub refresh_missing : CoverageArtifact → MissingRequirement
  refresh_missing a = record {
    category = a.category;
    region = none;
    reason = concat (
        "SHA-drift validation failed for "
        ∷ category_name a.category
        ∷ " at "
        ∷ a.generated_at_sha
        ∷ []);
  }

  unfoldable pub verify_artifacts :
      List CoverageArtifact → World → Fallible CheckpointResult × World
  verify_artifacts [] w =
      (returns (record { refresh_children = []; validated_ok = []; refreshed_categories = [] }), w)
  verify_artifacts (a ∷ as') w =
      let (answer, w') = gateway.validate (full_artifact a) w in
      let log : Freshness → World = λ outcome.
        append_event now goal.id
          (knowledge_checked repo_root a.category a.generated_at_sha outcome checkpoint) w' in
      let skip = verify_artifacts as' w in
      let kept = and_then (add_validated a.category) (verify_artifacts as' (log stale_validated)) in
      let renewed =
        and_then (add_refresh a.category (gateway.mint_comprehension (refresh_missing a ∷ [])))
          (verify_artifacts as' (log invalid)) in
      if str_eq a.generated_at_sha head_sha
      then skip
      else elim answer [ throws m ↦ (throws m, w') | returns ok ↦ if ok then kept else renewed ]

unfoldable pub checkpoint_verify_artifacts :
    (ℕ → ℕ)
    → KnowledgeGateway
    → Goal
    → KnowledgeForCoverage
    → String
    → Option Checkpoint
    → World
    → Fallible CheckpointResult × World
checkpoint_verify_artifacts now gateway goal k repo_root checkpoint w =
    verify_artifacts now gateway goal repo_root k.head_sha checkpoint k.artifacts w
