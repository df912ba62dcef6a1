-- ===== src/Eventlog/Conformance/Violation.antt =====
-- src/eventlog/conformance/types.ts: what the audit reports.
use corellia.Prelude.{ℕ, String, List}

pub data ConformanceInvariant : Type 0 where
  deterministic_before_judge no_judge_authored_writes : ConformanceInvariant
  spend_monotone spend_under_ceiling : ConformanceInvariant
  brief_carries_deadline park_carries_ttl worktree_well_nested : ConformanceInvariant

pub record ConformanceViolation : Type 0 where
  pub invariant : ConformanceInvariant
  pub goal_id : String
  pub indices : List ℕ
  pub detail : String
