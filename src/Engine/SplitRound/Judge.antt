-- ===== src/Engine/SplitRound/Judge.antt =====
-- src/engine/split-integration.ts, `judgeSplitIntegration`: the judge of what the children made
-- together. The brain, the rubric with its skills and the digests are parameters.
use Prim.Native.Char.{code}
use Prim.Native.String.{String}
use corellia.Prelude.{
  ℕ, ◌+◌, ◌-◌, ◌*◌, Option, none, some, List, [], ◌∷◌, map, Bool, true, false, ◌&&◌, ltb, leb,
  if◌then◌else◌, ◌==◌, ◌≡◌, refl,
}
use corellia.Prelude.Text.{concat, join, after}
use corellia.Contract.Goal.{Goal, Intent, MemoryPointer, Tier, Usage}
use corellia.Contract.Report.{Artifact}
use corellia.Contract.Verdict.{Verdict}
use corellia.Contract.Events.{judge_verdict, golden_candidate}
use corellia.Engine.World.{World, append_event}
use corellia.Engine.Fallible.{Fallible, returns, throws}

pub record SplitIntegrationJudgment : Type 0 where
  pub findings : List String
  pub blockers : List String
  pub verdict : Option Verdict

-- An error that is thrown is its message.
pub record Integrator : Type 0 where
  pub now : ℕ → ℕ
  pub goal : Goal
  pub tier : Tier
  pub has_judge_integration : Bool
  pub enrich_rubric : String → String → Intent → String
  pub judge :
      Goal
      → Artifact
      → String
      → Tier
      → List MemoryPointer
      → World
      → Fallible (Verdict × Usage) × World
  pub golden_capture : Bool
  pub artifact_digest : Artifact → String
  pub sha1 : String → String
  pub model_by_tier : Tier → Option String

abbrev pub judge_integration : String
judge_integration = "judge-integration"

abbrev pub is_digit : ℕ → Bool
is_digit n = leb 48 n && leb n 57

-- `(\d{3})\)` at the start of a text.
unfoldable pub status_in_parens : String → Option ℕ
status_in_parens (String.◌∷◌ a (String.◌∷◌ b (String.◌∷◌ c (String.◌∷◌ d s)))) =
    if is_digit (code a) && is_digit (code b) && is_digit (code c) && (code d == b')')
    then some ((code a - 48) * 100 + (code b - 48) * 10 + (code c - 48))
    else none
status_in_parens _ = none

abbrev pub status_at : String → Option ℕ
status_at s = elim (after (λ n. n) "LLM request failed (" s) [
  | none ↦ none
  | some rest ↦ status_in_parens rest
]

-- The first place where the message names a status.
unfoldable pub provider_status : String → Option ℕ
provider_status String.[] = none
provider_status (String.◌∷◌ c s) =
    let later = provider_status s in
    elim (status_at (String.◌∷◌ c s)) [ some n ↦ some n | none ↦ later ]

unfoldable pub is_terminal_provider_error : String → Bool
is_terminal_provider_error message = elim (provider_status message) [
  | none ↦ false
  | some status ↦ leb 400 status && ltb status 500
]

terminal :
    (is_terminal_provider_error "LLM request failed (413): too large" ≡ true)
    × (is_terminal_provider_error "LLM request failed (503): busy" ≡ false)
unfolding is_terminal_provider_error provider_status status_in_parens after
terminal = (refl, refl)

unfoldable pub passed_judgment : Option Verdict → SplitIntegrationJudgment
passed_judgment verdict = record { findings = []; blockers = []; verdict = verdict }

-- One sentence is both what was found and what blocks.
unfoldable pub failed_judgment : String → Option Verdict → SplitIntegrationJudgment
failed_judgment reason verdict = record {
  findings = reason ∷ [];
  blockers = reason ∷ [];
  verdict = verdict;
}

unfoldable pub judgment_of : Verdict → SplitIntegrationJudgment
unfolding passed_judgment failed_judgment
judgment_of v =
    if v.pass
    then passed_judgment (some v)
    else failed_judgment
        (concat ("Integration eval failed: " ∷ join ", " (map (λ f. f.title) v.findings) ∷ []))
        (some v)

module _ (j : Integrator) where
  unfoldable pub integration_rubric : String
  integration_rubric =
      j.enrich_rubric
        (concat (
          "Does the integrated artifact satisfy the original goal: \"" ∷ j.goal.title ∷ "\"?" ∷ []))
        judge_integration j.goal.intent

  -- The verdict is logged only where candidates are captured.
  unfoldable pub capture_integration : Artifact → Verdict → Usage → World → World
  capture_integration artifact v usage w =
      let judged =
        append_event j.now j.goal.id (judge_verdict judge_integration v j.tier (some usage)) w in
      if j.golden_capture
      then append_event j.now j.goal.id
          (golden_candidate judge_integration (j.artifact_digest artifact)
            (j.sha1 integration_rubric) v.pass j.tier (j.model_by_tier j.tier))
          judged
      else w

  -- A status in the four hundreds is a blocker; any other error goes on up.
  unfoldable pub judged_integration :
      Artifact → Fallible (Verdict × Usage) × World → Fallible SplitIntegrationJudgment × World
  unfolding failed_judgment
  judged_integration artifact (returns (v, usage), w) =
      (returns (judgment_of v), capture_integration artifact v usage w)
  judged_integration artifact (throws m, w) =
      if is_terminal_provider_error m
      then (
        returns (failed_judgment (concat ("Integration eval could not run: " ∷ m ∷ [])) none),
        w,
      )
      else (throws m, w)

  unfoldable pub judge_split_integration :
      Option Artifact → World → Fallible SplitIntegrationJudgment × World
  unfolding passed_judgment judged_integration
  judge_split_integration none w = (returns (passed_judgment none), w)
  judge_split_integration (some artifact) w =
      let judged =
        judged_integration artifact
          (j.judge j.goal artifact integration_rubric j.tier j.goal.memories w) in
      if j.has_judge_integration then judged else (returns (passed_judgment none), w)
