-- ===== src/Contract/Goal.antt =====
-- src/contract/goal.ts: the typed goal that is passed down the tree.
-- Money is a whole number of millionths of a dollar.
use corellia.Prelude.{ℕ, String, Option, none, List, Bool}
use corellia.Prelude.Int.{ℤ}
use corellia.Contract.Json.{Json}

pub data Kind : Type 0 where
  make learn judge evolve : Kind

pub data Intent : Type 0 where
  production spike characterization : Intent

pub data Tier : Type 0 where
  low mid high : Tier

pub data MinToolCalling : Type 0 where
  ok strong : MinToolCalling

pub record ModelNeeds : Type 0 where
  pub vision : Option Bool
  pub min_context : Option ℕ
  pub min_tool_calling : Option MinToolCalling

-- The counters go below zero: running out is reported and never stops the work.
pub record Budget : Type 0 where
  pub attempts : ℤ
  pub tokens : ℤ
  pub tool_calls : ℤ
  pub wall_clock_ms : ℤ

pub data MemoryLayer : Type 0 where
  project type global : MemoryLayer

pub data Trust : Type 0 where
  provisional trusted : Trust

pub record MemoryPointer : Type 0 where
  pub id : String
  pub layer : MemoryLayer
  pub namespace : Option String
  pub content : String
  pub provenance : Trust

pub record Usage : Type 0 where
  pub prompt_tokens : ℕ
  pub completion_tokens : ℕ
  pub cost_usd : Option ℕ
  pub cached_prompt_tokens : Option ℕ

abbrev pub zero_usage : Usage
zero_usage = record {
  prompt_tokens = 0;
  completion_tokens = 0;
  cost_usd = none;
  cached_prompt_tokens = none;
}

pub record Goal : Type 0 where
  pub id : String
  pub type : String
  pub parent_id : Option String
  pub title : String
  pub spec : Json
  pub intent : Intent
  pub scope : List String
  pub budget : Budget
  pub memories : List MemoryPointer
  pub spend_ceiling_usd : Option ℕ
  pub max_rounds : Option ℤ
  pub declared_scripts : Option Json
  pub declared_captures : Option Json
