-- ===== src/Contract/Knowledge.antt =====
-- src/contract/knowledge.ts: the records of project memory that events carry.
use corellia.Prelude.{ℕ, String, Option, List}
use corellia.Contract.Goal.{Trust}

pub data KnowledgeCategory : Type 0 where
  architecture stack conventions design_system deps test_scaffold credentials : KnowledgeCategory

pub data Confidence : Type 0 where
  low medium high : Confidence

pub record KnowledgePointer : Type 0 where
  pub path : String
  pub line : Option ℕ
  pub note : String

pub record KnowledgeArtifact : Type 0 where
  pub repo_root : String
  pub category : KnowledgeCategory
  pub generated_at_sha : String
  pub confidence : Confidence
  pub status : Trust
  pub pointers : List KnowledgePointer
  pub summary : String

pub record Anchor : Type 0 where
  pub path : String
  pub line : ℕ

pub record DiveFact : Type 0 where
  pub claim : String
  pub anchors : List Anchor
  pub sha : String
  pub confidence : Confidence

pub record RegionFacts : Type 0 where
  pub repo_root : String
  pub region : String
  pub generated_at_sha : String
  pub facts : List DiveFact
