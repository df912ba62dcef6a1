-- ===== src/Contract/GoalType.antt =====
-- src/contract/goal-type.ts: a goal type, and the registry of them.
use corellia.Prelude.{ℕ, String, Option, List, Bool}
use corellia.Prelude.Int.{ℤ}
use corellia.Contract.Json.{Json}
use corellia.Contract.Goal.{Goal, Kind, Tier}
use corellia.Contract.Decision.{OnTimeout}
use corellia.Contract.Report.{Artifact}

pub record CheckResult : Type 0 where
  pub ok : Bool
  pub detail : String
  pub prescription : Option String

-- A check reads the goal and the artifact; the sandbox it may also read is part of its closure.
pub record DeterministicCheck : Type 0 where
  pub name : String
  pub run : Goal → Option Artifact → CheckResult

pub record TierPolicy : Type 0 where
  pub default : Tier
  pub ladder : List Tier

pub record ScanPolicy : Type 0 where
  pub k : ℕ
  pub lenses : List String

pub record HumanTouchpoint : Type 0 where
  pub name : String
  pub on_timeout : OnTimeout

pub record IterativePolicy : Type 0 where
  pub max_rounds : ℤ
  pub acceptance_judge : String

-- An optional flag is a Bool, and absent reads as false.
pub record GoalTypeDef : Type 0 where
  pub name : String
  pub kind : Kind
  pub family : String
  pub leaf_only : Bool
  pub tier : TierPolicy
  pub deterministic : List DeterministicCheck
  pub judge_type : Option String
  pub grants : List String
  pub must_decompose : Bool
  pub gated : Bool
  pub scan : Option ScanPolicy
  pub output_schema : Option Json
  pub input_schema : Option Json
  pub validate_input : Option (Json → Option String)
  pub accepts_free_text : Bool
  pub core : Bool
  pub human_touchpoints : Option (List HumanTouchpoint)
  pub requires_scope : Bool
  pub mints_acceptance_checks : Bool
  pub iterative : Option IterativePolicy
