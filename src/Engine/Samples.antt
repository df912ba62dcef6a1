-- ===== src/Engine/Samples.antt =====
-- Small goals, budgets and worlds of src/engine/.
use corellia.Prelude.{ℕ, Option, none, some, [], ◌∷◌, true, false}
use corellia.Prelude.Int.{pos}
use corellia.Contract.Json.{Json}
use corellia.Contract.Goal.{Budget, Goal, Intent, Usage}
use corellia.Contract.Verdict.{Verdict}
use corellia.Engine.World.{World}

abbrev pub clock : ℕ → ℕ
clock n = n

abbrev pub small_budget : Budget
small_budget = record {
  attempts = pos 3;
  tokens = pos 1000;
  tool_calls = pos 10;
  wall_clock_ms = pos 60000;
}

abbrev pub small_goal : Goal
small_goal = record {
  id = "g";
  type = "build";
  parent_id = none;
  title = "a goal";
  spec = Json.null;
  intent = Intent.production;
  scope = "src" ∷ [];
  budget = small_budget;
  memories = [];
  spend_ceiling_usd = none;
  max_rounds = none;
  declared_scripts = none;
  declared_captures = none;
}

abbrev pub world_of : ℕ → Option ℕ → World
world_of spent deadline = record {
  tree = record {
    spent_usd = spent;
    ceiling_usd = 100;
    deadline = deadline;
    ceiling_emitted = false;
  };
  log = [];
  tick = 10;
}

abbrev pub usage_of : ℕ → Usage
usage_of cost = record {
  prompt_tokens = 5;
  completion_tokens = 2;
  cost_usd = some cost;
  cached_prompt_tokens = none;
}

abbrev pub passes : Verdict
passes = record { pass = true; findings = []; failure_signature = none }

abbrev pub fails : Verdict
fails = record { pass = false; findings = []; failure_signature = none }
