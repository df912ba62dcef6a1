-- ===== src/Engine/SplitSamples.antt =====
-- Small splits of src/engine/split-validation.ts, a round that runs one, and a decider that costs.
use corellia.Prelude.{String, ℕ, Option, none, some, List, [], ◌∷◌, true, false}
use corellia.Contract.Json.{Json}
use corellia.Contract.Goal.{Kind, Tier}
use corellia.Contract.Decision.{ChildPlan, satisfy}
use corellia.Contract.GoalType.{GoalTypeDef}
use corellia.Engine.World.{World}
use corellia.Engine.Samples.{clock, small_goal, world_of, usage_of, passes}
use corellia.Engine.SplitChildren.Prepare.{Hooks}
use corellia.Engine.SplitChildren.Run.{Round}
use corellia.Engine.SplitAcceptance.Verdicts.{Acceptance}
use corellia.Engine.SplitAcceptance.Turn.{AcceptanceResult}

abbrev pub plan : String → List String → ℕ → ChildPlan
plan id deps share = record {
  local_id = id;
  type = "implement";
  title = id;
  spec = Json.null;
  depends_on = deps;
  scope = "src" ∷ [];
  budget_share = share;
  intent = none;
}

abbrev pub triangle : List ChildPlan
triangle = plan "a" ("b" ∷ []) 1 ∷ plan "b" ("c" ∷ []) 1 ∷ plan "c" ("a" ∷ []) 1 ∷ []

abbrev pub pair : List ChildPlan
pair = plan "a" [] 400000 ∷ plan "b" ("a" ∷ []) 600000 ∷ []

abbrev pub heavy : List ChildPlan
heavy = plan "a" [] 1000000 ∷ plan "b" [] 1000000 ∷ plan "c" [] 1000000 ∷ []

abbrev pub implement_type : GoalTypeDef
implement_type = record {
  name = "implement";
  kind = Kind.make;
  family = "build";
  leaf_only = false;
  tier = record { default = Tier.low; ladder = Tier.low ∷ [] };
  deterministic = [];
  judge_type = none;
  grants = [];
  must_decompose = false;
  gated = false;
  scan = none;
  output_schema = none;
  input_schema = none;
  validate_input = none;
  accepts_free_text = true;
  core = true;
  human_touchpoints = none;
  requires_scope = true;
  mints_acceptance_checks = false;
  iterative = none;
}

abbrev pub known_types : String → Option GoalTypeDef
known_types t = some implement_type

abbrev pub hooks : Hooks
hooks = record {
  now = clock;
  parent = small_goal;
  repo_root = "";
  facts_for_regions = none;
  head_sha = none;
  region_scanner = none;
  kind_of = λ t. some Kind.make;
}

-- The round that a run leads to; any other round where it leads nowhere.
abbrev pub round_of : Option Round → Round
round_of none = record { entries = []; world = world_of 0 none }
round_of (some r) = r

-- A decider that would satisfy, for three millionths.
abbrev pub acceptance : Acceptance
acceptance = record {
  now = clock;
  goal = small_goal;
  type_def = implement_type;
  tier = Tier.low;
  resolve_type = known_types;
  decide = λ g c w. ((satisfy, usage_of 3), w);
  judge = λ g x r t w. ((passes, usage_of 2), w);
  has_judge_split = true;
  repo_root = none;
  knowledge = none;
  stringify = λ cs. "[]";
  enrich_rubric = λ base type g. base;
  golden_capture = false;
  sha1 = λ s. s;
  model_by_tier = λ t. none;
}

-- The world that an acceptance leaves; any other world where it leaves none.
abbrev pub world_after : Option (AcceptanceResult × World) → World
world_after none = world_of 0 none
world_after (some (r, w)) = w
