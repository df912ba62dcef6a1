-- ===== src/Contract/Decision.antt =====
-- src/contract/decision.ts: what a harness decides. A share of a budget is in millionths.
use corellia.Prelude.{ℕ, String, Option, List}
use corellia.Prelude.Int.{ℤ}
use corellia.Contract.Json.{Json}
use corellia.Contract.Goal.{Intent}

pub record ChildPlan : Type 0 where
  pub local_id : String
  pub type : String
  pub title : String
  pub spec : Json
  pub depends_on : List String
  pub scope : List String
  pub budget_share : ℕ
  pub intent : Option Intent

pub data OnTimeout : Type 0 where
  deny park bounce : OnTimeout

pub data BriefResolution : Type 0 where
  deny park bounce answered : BriefResolution

-- `brief.onTimeout` stands where a resolution is wanted.
abbrev pub resolution_of : OnTimeout → BriefResolution
resolution_of OnTimeout.deny = BriefResolution.deny
resolution_of OnTimeout.park = BriefResolution.park
resolution_of OnTimeout.bounce = BriefResolution.bounce

pub record Teaching : Type 0 where
  pub finding : String
  pub confidence : String
  pub costs : String
  pub recommendation : String

pub record DecisionBrief : Type 0 where
  pub question : String
  pub options : List String
  pub links : List String
  pub deadline_ms : ℤ
  pub on_timeout : OnTimeout
  pub teaching : Option Teaching

pub data Decision : Type 0 where
  satisfy : Decision
  split : List ChildPlan → Decision
  block : DecisionBrief → Decision
