-- ===== src/Engine/SplitRound/Merge.antt =====
-- src/engine/split-integration.ts: the artifacts of the children, merged.
use corellia.Prelude.{
  ℕ, String, Option, none, some, List, [], ◌∷◌, ◌++◌, map, Bool, true, false, ◌||◌, length, str_eq,
  if◌then◌else◌, ◌==◌,
}
use corellia.Prelude.Text.{concat, join}
use corellia.Contract.Goal.{Goal}
use corellia.Contract.GoalType.{GoalTypeDef, DeterministicCheck}
use corellia.Contract.Report.{Artifact, ArtifactKind, FileBody, Report}
use corellia.Contract.Verdict.{Verdict}
use corellia.Contract.Events.{deterministic_checked}
use corellia.Engine.World.{World, append_event}
use corellia.Engine.Fallible.{Fallible, returns, and_then}

abbrev pub files_of : Option Artifact → List FileBody
files_of none = []
files_of (some a) = elim a.kind [
  | ArtifactKind.files ↦ elim a.files [ none ↦ [] | some fs ↦ fs ]
  | ArtifactKind.text ↦ []
]

-- An empty text is left out.
abbrev pub texts_of : Option Artifact → List String
texts_of none = []
texts_of (some a) = elim a.kind [
  | ArtifactKind.files ↦ []
  | ArtifactKind.text ↦ elim a.text [ none ↦ [] | some t ↦ if str_eq t "" then [] else t ∷ [] ]
]

abbrev pub all_files : List Report → List FileBody
all_files [] = []
all_files (r ∷ rs) = files_of r.artifact ++ all_files rs

abbrev pub all_texts : List Report → List String
all_texts [] = []
all_texts (r ∷ rs) = texts_of r.artifact ++ all_texts rs

unfoldable pub merge_generic_child_artifacts : List Report → Option Artifact
merge_generic_child_artifacts reports =
    if length (all_files reports) == 0
    then if length (all_texts reports) == 0
      then none
      else some (record {
        kind = ArtifactKind.text;
        files = none;
        text = some (join "\n" (all_texts reports));
        empty_diagnosis = none;
      })
    else some (record {
      kind = ArtifactKind.files;
      files = some (all_files reports);
      text = none;
      empty_diagnosis = none;
    })

pub data ComprehendMergeResult : Type 0 where
  skipped : ComprehendMergeResult
  handled :
      (merged_artifact : Option Artifact) (blockers findings : List String) → ComprehendMergeResult

-- What the merge is given. The merge of comprehension artifacts parses their JSON and is a
-- parameter; a read of HEAD that throws is none.
pub record Comprehension : Type 0 where
  pub now : ℕ → ℕ
  pub goal : Goal
  pub type_def : GoalTypeDef
  pub active_repo_root : Option String
  pub spec_repo_root : Option String
  pub head_sha : Option (String → World → Option String)
  pub merge : String → List (Option Artifact) → String → Option Artifact
  pub child_sha_fallback : List (Option Artifact) → String → String
  pub persist : Goal → Artifact → World → Fallible {0} Unit × World

-- The loop over the checks of the type: whether all were met, and what was found.
unfoldable pub merge_checks : Goal → Option Artifact → List DeterministicCheck → Bool × List String
merge_checks goal merged [] = (true, [])
merge_checks goal merged (c ∷ cs) =
    let (all_ok, findings) = merge_checks goal merged cs in
    let result = c.run goal merged in
    if result.ok
    then (all_ok, findings)
    else (false, concat ("comprehend-merge " ∷ c.name ∷ ": " ∷ result.detail ∷ []) ∷ findings)

unfoldable pub merge_verdict : Bool × List String → Verdict
merge_verdict (all_ok, findings) = record {
  pass = all_ok;
  findings = [];
  failure_signature =
      if all_ok then none else some (concat ("comprehend-merge:" ∷ join "," findings ∷ []));
}

unfoldable pub merge_failed : List String → ComprehendMergeResult
merge_failed findings =
    handled none
      (concat (
          "Comprehension integrate merge failed its deterministic gate: " ∷ join "; " findings ∷ [])
        ∷ [])
      findings

module _ (m : Comprehension) where
  unfoldable pub comprehend_merge_type : Option String
  comprehend_merge_type =
      let known = str_eq m.goal.type "map-repo" || str_eq m.goal.type "deep-dive-region" in
      if str_eq m.type_def.family "comprehend"
      then if known then some m.goal.type else none
      else none

  unfoldable pub resolve_merge_head_sha : List (Option Artifact) → String → World → String
  resolve_merge_head_sha artifacts type w =
      let root : String = elim m.active_repo_root [
        | some root ↦ root
        | none ↦ elim m.spec_repo_root [ none ↦ "" | some root ↦ root ]
      ] in
      let fallback = m.child_sha_fallback artifacts type in
      elim m.head_sha [
        | none ↦ fallback
        | some read ↦ if str_eq root "" then fallback else elim (read root w) [
          | none ↦ fallback
          | some sha ↦ if str_eq sha "" then fallback else sha
        ]
      ]

  -- The gate of the merged artifact, if any, which is kept when all its checks are met.
  unfoldable pub gate_merged : Option Artifact → World → Fallible ComprehendMergeResult × World
  unfolding merge_failed
  gate_merged none w = (returns (handled none [] []), w)
  gate_merged (some merged) w =
      let checked = merge_checks m.goal (some merged) m.type_def.deterministic in
      let w' = append_event m.now m.goal.id (deterministic_checked (merge_verdict checked)) w in
      let kept =
        and_then (m.persist m.goal merged w')
          (λ _ w''. (returns (handled (some merged) [] []), w'')) in
      if checked.0 then kept else (returns (merge_failed checked.1), w')

  -- With the type that the goal's merge has, if it is one.
  unfoldable pub merge_as :
      Option String → List Report → World → Fallible ComprehendMergeResult × World
  merge_as none reports w = (returns skipped, w)
  merge_as (some type) reports w =
      let artifacts = map (λ r. r.artifact) reports in
      gate_merged (m.merge type artifacts (resolve_merge_head_sha artifacts type w)) w

  unfoldable pub merge_comprehend_child_artifacts :
      List Report → World → Fallible ComprehendMergeResult × World
  merge_comprehend_child_artifacts reports w = merge_as comprehend_merge_type reports w
