-- ===== src/Contract/Events.antt =====
-- src/contract/events.ts: the events of the append-only log.
-- Every event carries `at` and `goal_id`; what else it carries is its body.
use corellia.Prelude.{ℕ, String, Option, List, Bool}
use corellia.Prelude.Int.{ℤ}
use corellia.Contract.Goal.{Goal, MemoryPointer, Tier, Trust, Usage}
use corellia.Contract.Decision.{Decision, DecisionBrief, BriefResolution}
use corellia.Contract.Report.{Report, BlockedModule}
use corellia.Contract.Verdict.{Verdict, RiskClass}
use corellia.Contract.Knowledge.{KnowledgeArtifact, KnowledgeCategory, RegionFacts}
use corellia.Contract.Json.{Json}

pub data BudgetDimension : Type 0 where
  attempts tokens tool_calls wall_clock_ms : BudgetDimension

pub data Outcome : Type 0 where
  success failure : Outcome

pub data Consulted : Type 0 where
  none provisional trusted : Consulted

pub data CallOutcome : Type 0 where
  ran refused : CallOutcome

pub data OutputKind : Type 0 where
  tool_calls artifact : OutputKind

pub data EscapeSource : Type 0 where
  run_command round_commit : EscapeSource

pub data Freshness : Type 0 where
  fresh stale_validated invalid : Freshness

pub data Checkpoint : Type 0 where
  decide split integrate : Checkpoint

pub data GateResolution : Type 0 where
  granted denied : GateResolution

pub data LabelOutcome : Type 0 where
  merged rejected confirmed refuted : LabelOutcome

pub data MilestoneOutcome : Type 0 where
  done continue halt_no_progress halt_max_rounds halt_ceiling halt_deadline : MilestoneOutcome

pub record TouchedFile : Type 0 where
  pub path : String
  pub in_scope : Bool

pub data EventBody : Type 0 where
  goal_received : (goal : Goal) → EventBody
  gate_checked : (ok : Bool) (missing : List String) → EventBody
  decided : (decision : Decision) (usage : Option Usage) → EventBody
  child_spawned : (child_id child_type : String) (depends_on : List String) → EventBody
  deterministic_checked : (verdict : Verdict) → EventBody
  judge_verdict :
      (judge_type : String) (verdict : Verdict) (tier : Tier) (usage : Option Usage) → EventBody
  repair_applied : (prescriptions : List String) (usage : Option Usage) → EventBody
  tier_escalated : (from to : Tier) → EventBody
  blocked : (brief : DecisionBrief) (resolution : BriefResolution) → EventBody
  memory_written : (pointer : MemoryPointer) → EventBody
  memory_reinforced : (memory_id : String) (outcome : Outcome) → EventBody
  emitted : (report : Report) → EventBody
  budget_exhausted : (dimension : BudgetDimension) → EventBody
  risk_classified : (risk : RiskClass) → EventBody
  gate_decision : (resolution : GateResolution) → EventBody
  parked : (brief : DecisionBrief) (ttl_ms : ℤ) → EventBody
  resumed : (answer : String) → EventBody
  pattern_consulted : (shape : String) (status : Consulted) → EventBody
  pattern_recorded : (shape : String) (outcome : Outcome) → EventBody
  pattern_trust_signed : (shape : String) (from to : Trust) (signer rationale : String) → EventBody
  tool_call :
      (tool call_id : String) (outcome : CallOutcome) (reason : Option String) (args : Option Json)
      → EventBody
  step : (index : ℕ) (output_kind : OutputKind) (usage : Option Usage) → EventBody
  script_ran :
      (command : String) (exit_status : Option ℤ) (duration_ms : ℕ) (output_ref : String)
      → EventBody
  capture_ran :
      (capture_name kind : String) (ok : Bool) (duration_ms : ℕ) (output_ref : Option String)
      → EventBody
  worktree_created : (tree_id branch path : String) → EventBody
  worktree_collected : (tree_id branch : String) (commits : List String) → EventBody
  worktree_preserved : (tree_id branch path reason : String) → EventBody
  worktree_reaped : (path : String) (branch : Option String) (reason : String) → EventBody
  files_touched : (scope : List String) (files : List TouchedFile) → EventBody
  scope_escaped : (source : EscapeSource) (scope paths : List String) → EventBody
  partial_delivered : (blocked_modules : List BlockedModule) → EventBody
  produced : (usage : Usage) → EventBody
  ceiling_reached : (spent_usd ceiling_usd : ℕ) → EventBody
  transport_retry : (detail : String) → EventBody
  malformation_reprompt : (detail : String) → EventBody
  context_evicted : (detail : String) → EventBody
  dependency_degraded : (dependency blocker : String) → EventBody
  knowledge_written : (artifact : KnowledgeArtifact) → EventBody
  knowledge_facts_written : (facts : RegionFacts) → EventBody
  knowledge_checked :
      (repo_root : String) (category : KnowledgeCategory) (sha : String) (outcome : Freshness)
      (checkpoint : Option Checkpoint)
      → EventBody
  golden_candidate :
      (judge_type artifact_digest rubric_digest : String) (verdict_pass : Bool) (tier : Tier)
      (model : Option String)
      → EventBody
  golden_label : (outcome : LabelOutcome) (source : String) (note : Option String) → EventBody
  branch_pushed : (tree_id branch remote : String) → EventBody
  pr_opened : (tree_id branch url : String) → EventBody
  blocker_routed : (blocker commission_id : String) → EventBody
  round_started : (round spent_usd : ℕ) (round_wall_clock_ms : ℤ) → EventBody
  round_assessed :
      (round passing_count criteria_total : ℕ) (judge_verdict : Verdict)
      (outcome : MilestoneOutcome) (diff_digest : List String)
      → EventBody

pub record FactoryEvent : Type 0 where
  pub at : ℕ
  pub goal_id : String
  pub body : EventBody
