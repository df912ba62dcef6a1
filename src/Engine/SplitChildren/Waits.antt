-- ===== src/Engine/SplitChildren/Waits.antt =====
-- In a round of src/engine/split-children.ts without a cycle, some child can always go on.
use corellia.Prelude.{
  ◌≡◌, ◌≢◌, inl, inr, refl, sym, subst, String, Option, none, some, Option-cases, List, [], ◌∷◌, In,
  str_eq, Bool-cases, arith,
}
use corellia.Contract.Goal.{Goal}
use corellia.Engine.SplitValidation.Graph.{Grounded, ground_at}
use corellia.Engine.SplitValidation.Cycle.{dep_map, dependencies}
use corellia.Engine.SplitChildren.Prepare.{Hooks, waiting, running, threw, DepReport}
use corellia.Engine.SplitChildren.Run.{
  Entry, Round, entry_of, report_of, missing, dependency_reports, begin_entry, begin, end_child,
  Move, begins, ends, apply,
}
use corellia.Engine.SplitChildren.Work.{plans}
use corellia.Engine.SplitChildren.Moves.{Phase-cases}

-- A dependency that has not reported.
record Unreported (es : List Entry) (deps : List String) : Type 0 where
  id : String
  entry : Entry
  among : In id deps
  known : entry_of es id ≡ some entry
  open_yet : report_of entry.phase ≡ none

-- A dependency names no child, or all have reported, or one has not.
data Dependencies (es : List Entry) (deps : List String) : Type 0 where
  lost : (d : String) → missing es deps ≡ some d → Dependencies es deps
  reported :
      (rs : List DepReport)
      → missing es deps ≡ none
      → dependency_reports es deps ≡ some rs
      → Dependencies es deps
  late : Unreported es deps → Dependencies es deps

dependency-cases : (es : List Entry) (deps : List String) → Dependencies es deps
unfolding missing dependency_reports
dependency-cases es [] = reported [] refl refl
dependency-cases es (d ∷ ds) = elim (Option-cases (entry_of es d)) [
  | inl none_there ↦ lost d (ground arith)
  | inr (e, known) ↦ elim (dependency-cases es ds) [
    | lost x none_there ↦ lost x (ground arith)
    | late u ↦ late (record {
      id = u.id;
      entry = u.entry;
      among = inr u.among;
      known = u.known;
      open_yet = u.open_yet;
    })
    | reported rs all_there q ↦ elim (Option-cases (report_of e.phase)) [
      | inl no_report ↦
          late (record { id = d; entry = e; among = inl refl; known = known; open_yet = no_report })
      | inr (rep, done) ↦
          reported (record { local_id = d; report = rep; plan = some e.plan } ∷ rs) (ground arith)
            (ground arith)
    ]
  ]
]

abbrev depends : Option Entry → Option (List String)
depends none = none
depends (some e) = some e.plan.depends_on

-- The plans of the entries say what a child depends on.
entry_of-dep_map :
    (es : List Entry) (id : String) → dep_map (plans es) id ≡ depends (entry_of es id)
unfolding entry_of dep_map
entry_of-dep_map [] id = refl
entry_of-dep_map (f ∷ fs) id =
    let rest = entry_of-dep_map fs id in
    elim (Option-cases (entry_of fs id)) [
      | inl q ↦ elim (Bool-cases (str_eq f.plan.local_id id)) [
        | inl k ↦ ground arith
        | inr k ↦ ground arith
      ]
      | inr (e, q) ↦ ground arith
    ]

entry_of-dependencies :
    (es : List Entry) (id : String) (e : Entry)
    → entry_of es id ≡ some e
    → dependencies (plans es) id ≡ e.plan.depends_on
unfolding dependencies
entry_of-dependencies es id e known = let there = entry_of-dep_map es id in ground arith

-- Some move is open.
abbrev pub CanMove : Hooks → Round → Type 0
CanMove h r = (m : Move) × (s : Round) × (apply h m r ≡ some s)

module _ (h : Hooks) (r : Round) where
  open_move : (m : Move) → apply h m r ≢ none → CanMove h r
  open_move m q = elim (Option-cases (apply h m r)) [
    | inl closed ↦ absurd (q closed)
    | inr (s, went) ↦ (m, s, went)
  ]

  running-CanMove :
      (id : String) (e : Entry) (g : Goal) (fs : List String)
      → entry_of r.entries id ≡ some e
      → e.phase ≡ running g fs
      → CanMove h r
  running-CanMove id e g fs known p =
      open_move (ends id (threw "") r.world) (λ q. unfold apply end_child in ground arith)

  begin-CanMove :
      (id : String) (e : Entry)
      → entry_of r.entries id ≡ some e
      → e.phase ≡ waiting
      → begin_entry h id e r ≢ none
      → CanMove h r
  begin-CanMove id e known p ready =
      open_move (begins id) (λ q. ready (unfold apply begin in ground arith))

  -- A child that has not reported can go on, or one that it waits for can.
  pub unreported-CanMove :
      (id : String) (e : Entry)
      → Grounded (dependencies (plans r.entries)) id
      → entry_of r.entries id ≡ some e
      → report_of e.phase ≡ none
      → CanMove h r
  unreported-CanMove id e (ground_at below) known open_yet = elim (Phase-cases e.phase) [
    | inr (inl (g, fs, p)) ↦ running-CanMove id e g fs known p
    | inr (inr (rep, p)) ↦ absurd (ground arith)
    | inl p ↦ elim (dependency-cases r.entries e.plan.depends_on) [
      | lost d q ↦ begin-CanMove id e known p (λ k. unfold begin_entry in ground arith)
      | reported rs a q ↦ begin-CanMove id e known p (λ k. unfold begin_entry in ground arith)
      | late u ↦
          unreported-CanMove u.id u.entry
            (below u.id
              (subst (λ ds. In u.id ds) (sym (entry_of-dependencies r.entries id e known)) u.among))
            u.known u.open_yet
    ]
  ]
