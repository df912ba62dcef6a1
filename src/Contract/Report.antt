-- ===== src/Contract/Report.antt =====
-- src/contract/report.ts: what a goal sends up.
use corellia.Prelude.{String, Option, List}

pub data ArtifactKind : Type 0 where
  files text : ArtifactKind

pub record FileBody : Type 0 where
  pub path : String
  pub content : String

pub data EmptyReason : Type 0 where
  truncated refusal parse_drop empty_response : EmptyReason

pub record EmptyDiagnosis : Type 0 where
  pub reason : EmptyReason
  pub raw_sample : String

pub record Artifact : Type 0 where
  pub kind : ArtifactKind
  pub files : Option (List FileBody)
  pub text : Option String
  pub empty_diagnosis : Option EmptyDiagnosis

pub record BlockedModule : Type 0 where
  pub goal_id : String
  pub title : String
  pub blocker : String

pub record PartialDelivery : Type 0 where
  pub blocked_modules : List BlockedModule
  pub child_blockers : List String

pub record Report : Type 0 where
  pub artifact : Option Artifact
  pub proof : List String
  pub lessons : List String
  pub memories_used : List String
  pub blockers : List String
  pub findings : List String
  pub learned : String
  pub scope_insufficiency : Option String
  pub partial_delivery : Option PartialDelivery
