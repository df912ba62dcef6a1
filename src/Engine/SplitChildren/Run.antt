-- ===== src/Engine/SplitChildren/Run.antt =====
-- src/engine/split-children.ts, `runSplitChildren`: the children of a split, run as their
-- dependencies report. A move is what one child does between two waits; the order of the moves is
-- free, and what else runs between them changes the world as it likes.
use corellia.Prelude.{String, Option, none, some, List, [], ◌∷◌, str_eq, if◌then◌else◌}
use corellia.Prelude.Text.{concat}
use corellia.Contract.Goal.{Goal}
use corellia.Contract.Decision.{ChildPlan}
use corellia.Contract.Report.{Report}
use corellia.Engine.World.{World}
use corellia.Engine.SplitChildren.Goals.{
  Query, build_split_child_goals, append_child_spawned_events,
}
use corellia.Engine.SplitChildren.Prepare.{
  Hooks, Phase, waiting, running, finished, ChildOutcome, DepReport, threw, prepare, conclude,
}

pub record Entry : Type 0 where
  pub plan : ChildPlan
  pub goal : Goal
  pub phase : Phase

pub record Round : Type 0 where
  pub entries : List Entry
  pub world : World

-- `childByLocalId.get(id)`: of two children of one name the later one counts.
unfoldable pub entry_of : List Entry → String → Option Entry
entry_of [] id = none
entry_of (e ∷ es) id = elim (entry_of es id) [
  | some f ↦ some f
  | none ↦ if str_eq e.plan.local_id id then some e else none
]

abbrev pub report_of : Phase → Option Report
report_of waiting = none
report_of (running goal findings) = none
report_of (finished report) = some report

-- The first dependency that no child has.
unfoldable pub missing : List Entry → List String → Option String
missing es [] = none
missing es (d ∷ ds) = elim (entry_of es d) [ none ↦ some d | some e ↦ missing es ds ]

-- `Promise.all(dependsOn.map(startChild))`, once all have reported; none before.
unfoldable pub dependency_reports : List Entry → List String → Option (List DepReport)
dependency_reports es [] = some []
dependency_reports es (d ∷ ds) = elim (entry_of es d) [
  | none ↦ none
  | some e ↦ elim (report_of e.phase) [
    | none ↦ none
    | some r ↦ elim (dependency_reports es ds) [
      | none ↦ none
      | some rs ↦ some (record { local_id = d; report = r; plan = some e.plan } ∷ rs)
    ]
  ]
]

unfoldable pub set_phase : String → Phase → List Entry → List Entry
set_phase id p [] = []
set_phase id p (e ∷ es) =
    let rest = set_phase id p es in
    if str_eq e.plan.local_id id then record e { phase = p } ∷ rest else e ∷ rest

unfoldable pub moved : String → Phase × World → Round → Round
moved id (p, w) r = record { entries = set_phase id p r.entries; world = w }

pub data Move : Type 0 where
  begins : (id : String) → Move
  ends : (id : String) (outcome : ChildOutcome) (w : World) → Move

module _ (h : Hooks) where
  -- A child whose dependencies have reported, or name no child, goes on.
  unfoldable pub begin_entry : String → Entry → Round → Option Round
  begin_entry id e r = elim (missing r.entries e.plan.depends_on) [
    | some d ↦
        let message = concat (
          "Dependency \"" ∷ d ∷ "\" not found — this should have been caught in validateSplit"
          ∷ []) in
        some (moved id (conclude h e.goal [] (threw message) r.world) r)
    | none ↦ elim (dependency_reports r.entries e.plan.depends_on) [
      | none ↦ none
      | some deps ↦ some (moved id (prepare h e.plan e.goal deps r.world) r)
    ]
  ]

  unfoldable pub begin : String → Round → Option Round
  begin id r = elim (entry_of r.entries id) [
    | none ↦ none
    | some e ↦ elim e.phase [
      | waiting ↦ begin_entry id e r
      | running goal findings ↦ none
      | finished report ↦ none
    ]
  ]

  -- A child that runs ends, in the world that its run leaves.
  unfoldable pub end_child : String → ChildOutcome → World → Round → Option Round
  end_child id outcome w r = elim (entry_of r.entries id) [
    | none ↦ none
    | some e ↦ elim e.phase [
      | waiting ↦ none
      | finished report ↦ none
      | running goal findings ↦ some (moved id (conclude h e.goal findings outcome w) r)
    ]
  ]

  -- None is a move that is not open.
  unfoldable pub apply : Move → Round → Option Round
  apply (begins id) r = begin id r
  apply (ends id outcome w) r = end_child id outcome w r

  unfoldable pub run : List Move → Round → Option Round
  run [] r = some r
  run (m ∷ ms) r = elim (apply m r) [ none ↦ none | some s ↦ run ms s ]

unfoldable pub entries_of : List ChildPlan → List Goal → List Entry
entries_of [] goals = []
entries_of (c ∷ cs) [] = []
entries_of (c ∷ cs) (g ∷ gs) = record { plan = c; goal = g; phase = waiting } ∷ entries_of cs gs

-- The reports, child by child, once all have reported.
unfoldable pub reports_of : List Entry → Option (List Report)
reports_of [] = some []
reports_of (e ∷ es) = elim (report_of e.phase) [
  | none ↦ none
  | some r ↦ elim (reports_of es) [ none ↦ none | some rs ↦ some (r ∷ rs) ]
]

-- How a round of a split begins: the children's goals are built and announced, and all wait.
unfoldable pub open_round : Hooks → List ChildPlan → Query → World → Round
open_round h children query w =
    let goals = build_split_child_goals h.parent children query in
    record {
      entries = entries_of children goals;
      world = append_child_spawned_events h.now h.parent children goals w;
    }
