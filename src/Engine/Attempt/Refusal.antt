-- ===== src/Engine/Attempt/Refusal.antt =====
-- src/engine/attempt/delivery-refusal.ts: a text that says it cannot deliver. The phrases are plain
-- letters, so that only the letters from A to Z matter to `toLowerCase`.
use corellia.Prelude.{
  String, Option, none, some, List, [], ◌∷◌, Bool, true, false, any, str_eq, if◌then◌else◌,
}
use corellia.Prelude.Text.{contains, skip_spaces, lower}
use corellia.Contract.Report.{Artifact, ArtifactKind}
use corellia.Contract.Verdict.{Verdict, Dimension, Severity}

abbrev pub refusal_phrases : List String
refusal_phrases =
    "i cannot deliver" ∷ "i can not deliver" ∷ "i am unable to deliver" ∷ "i can't deliver"
    ∷ "cannot produce this" ∷ "cannot be delivered" ∷ "unable to produce" ∷ "would be fabrication"
    ∷ "i have no file access" ∷ "i cannot read" ∷ "i can't read" ∷ "no access to the"
    ∷ "the blocker is environmental" ∷ "i cannot complete" ∷ "i can't complete"
    ∷ "i am unable to complete" ∷ []

unfoldable pub refuses : Option String → Bool
refuses none = false
refuses (some text) =
    if str_eq (skip_spaces text) ""
    then false
    else any (λ phrase. contains lower phrase text) refusal_phrases

unfoldable pub is_delivery_refusal : Artifact → Bool
is_delivery_refusal a = elim a.kind [
  | ArtifactKind.files ↦ false
  | ArtifactKind.text ↦ refuses a.text
]

unfoldable pub delivery_refusal_verdict : Verdict
delivery_refusal_verdict = record {
  pass = false;
  findings =
      record {
        title =
            "delivery-refusal: the artifact states it cannot deliver the goal rather than delivering it";
        dimension = Dimension.spec;
        severity = Severity.high;
        gating = true;
        prescription =
            some
              "Produce the actual deliverable. If the goal is genuinely blocked (missing access, missing capability), raise a blocker — do not emit an artifact that explains the refusal.";
        escalated = false;
      }
      ∷ [];
  failure_signature = some "delivery-refusal";
}
