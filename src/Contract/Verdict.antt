-- ===== src/Contract/Verdict.antt =====
-- src/contract/verdict.ts and src/contract/risk.ts: what a judge found, and how risky a goal is.
use corellia.Prelude.{String, Option, List, Bool}

pub data Dimension : Type 0 where
  spec security contrarian robustness efficiency convention : Dimension

pub data Severity : Type 0 where
  high medium low : Severity

-- `escalated` is optional in the source, and absent reads as false.
pub record Finding : Type 0 where
  pub title : String
  pub dimension : Dimension
  pub severity : Severity
  pub gating : Bool
  pub prescription : Option String
  pub escalated : Bool

pub record Verdict : Type 0 where
  pub pass : Bool
  pub findings : List Finding
  pub failure_signature : Option String

pub data RiskClass : Type 0 where
  low medium high : RiskClass

pub record SensitivityFact : Type 0 where
  pub pattern_text : String
  pub reason : String
  pub risk : RiskClass
