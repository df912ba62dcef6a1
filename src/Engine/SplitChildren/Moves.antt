-- ===== src/Engine/SplitChildren/Moves.antt =====
-- Each move of src/engine/split-children.ts does some of what is left.
use corellia.Prelude.{
  ◌+◌, ◌≤◌, ◌<◌, ◌≡◌, ◌⊎◌, inl, inr, refl, sym, ap, ◌∙◌, subst, String, some, Option-cases, List,
  [], ◌∷◌, length, arith,
}
use corellia.Prelude.Text.{concat}
use corellia.Contract.Goal.{Goal}
use corellia.Contract.Decision.{ChildPlan}
use corellia.Contract.Report.{Report}
use corellia.Engine.World.{World}
use corellia.Engine.SplitValidation.SetOf.{Distinct}
use corellia.Engine.SplitValidation.Cycle.{ids_of}
use corellia.Engine.SplitChildren.Prepare.{
  Hooks, Phase, waiting, running, finished, ChildOutcome, returned, threw, DepReport, prepare,
  conclude, block_child,
}
use corellia.Engine.SplitChildren.Run.{
  Entry, Round, entry_of, missing, dependency_reports, moved, begin_entry, begin, end_child, Move,
  begins, ends, apply, run,
}
use corellia.Engine.SplitChildren.Work.{plans, weight, work, set_phase-plans, set_phase-work}

-- What a move does: one child that had not reported has less before it.
pub record Moves (r s : Round) : Type 0 where
  pub id : String
  pub entry : Entry
  pub phase : Phase
  pub world : World
  pub known : entry_of r.entries id ≡ some entry
  pub less : weight phase < weight entry.phase
  pub result : s ≡ moved id (phase, world) r

prepare-weight :
    (h : Hooks) (c : ChildPlan) (g : Goal) (ds : List DepReport) (w : World)
    → weight (prepare h c g ds w).0 < 2
unfolding prepare block_child
prepare-weight h c g ds w = ground arith

conclude-weight :
    (h : Hooks) (g : Goal) (fs : List String) (o : ChildOutcome) (w : World)
    → weight (conclude h g fs o w).0 ≡ 0
unfolding conclude block_child
conclude-weight h g fs (returned r) w = refl
conclude-weight h g fs (threw m) w = refl

-- The error for a dependency that no child has.
abbrev lost : String → String
lost d =
    concat
      ("Dependency \"" ∷ d ∷ "\" not found — this should have been caught in validateSplit" ∷ [])

-- A phase is one of three.
pub Phase-cases :
    (p : Phase)
    → (p ≡ waiting)
      ⊎ ((g : Goal) × (fs : List String) × (p ≡ running g fs))
      ⊎ ((r : Report) × (p ≡ finished r))
Phase-cases waiting = inl refl
Phase-cases (running g fs) = inr (inl (g, fs, refl))
Phase-cases (finished r) = inr (inr (r, refl))

module _ (h : Hooks) where
  begin_entry-Moves :
      (id : String) (e : Entry) (r s : Round)
      → entry_of r.entries id ≡ some e
      → e.phase ≡ waiting
      → begin_entry h id e r ≡ some s
      → Moves r s
  unfolding begin_entry
  begin_entry-Moves id e r s known wait q =
      elim (Option-cases (missing r.entries e.plan.depends_on)) [
        | inr (d, found) ↦ record {
          id = id;
          entry = e;
          phase = (conclude h e.goal [] (threw (lost d)) r.world).0;
          world = (conclude h e.goal [] (threw (lost d)) r.world).1;
          known = known;
          less =
              let none_left = conclude-weight h e.goal [] (threw (lost d)) r.world in
              rw wait (omega arith);
          result = ground arith;
        }
        | inl found ↦ elim (Option-cases (dependency_reports r.entries e.plan.depends_on)) [
          | inl late ↦ absurd (ground arith)
          | inr (ds, all) ↦ record {
            id = id;
            entry = e;
            phase = (prepare h e.plan e.goal ds r.world).0;
            world = (prepare h e.plan e.goal ds r.world).1;
            known = known;
            less = rw wait (prepare-weight h e.plan e.goal ds r.world);
            result = ground arith;
          }
        ]
      ]

  begin-Moves : (id : String) (r s : Round) → begin h id r ≡ some s → Moves r s
  unfolding begin
  begin-Moves id r s q = elim (Option-cases (entry_of r.entries id)) [
    | inl lost ↦ absurd (ground arith)
    | inr (e, known) ↦ elim (Phase-cases e.phase) [
      | inl wait ↦ begin_entry-Moves id e r s known wait (ground arith)
      | inr (inl (g, fs, p)) ↦ absurd (ground arith)
      | inr (inr (rep, p)) ↦ absurd (ground arith)
    ]
  ]

  end_child-Moves :
      (id : String) (o : ChildOutcome) (w : World) (r s : Round)
      → end_child h id o w r ≡ some s
      → Moves r s
  unfolding end_child
  end_child-Moves id o w r s q = elim (Option-cases (entry_of r.entries id)) [
    | inl lost ↦ absurd (ground arith)
    | inr (e, known) ↦ elim (Phase-cases e.phase) [
      | inl wait ↦ absurd (ground arith)
      | inr (inl (g, fs, p)) ↦ record {
        id = id;
        entry = e;
        phase = (conclude h e.goal fs o w).0;
        world = (conclude h e.goal fs o w).1;
        known = known;
        less = let none_left = conclude-weight h e.goal fs o w in rw p (omega arith);
        result = ground arith;
      }
      | inr (inr (rep, p)) ↦ absurd (ground arith)
    ]
  ]

  apply-Moves : (m : Move) (r s : Round) → apply h m r ≡ some s → Moves r s
  unfolding apply
  apply-Moves (begins id) r s q = begin-Moves id r s q
  apply-Moves (ends id o w) r s q = end_child-Moves id o w r s q

  Moves-plans : {r s : Round} → Moves r s → plans s.entries ≡ plans r.entries
  unfolding moved
  Moves-plans {r} {s} m =
      ap (λ (t : Round). plans t.entries) m.result ∙ set_phase-plans m.id m.phase r.entries

  Moves-work :
      {r s : Round}
      → Moves r s
      → Distinct (ids_of (plans r.entries))
      → work s.entries < work r.entries
  unfolding moved
  Moves-work {r} {s} m d =
      let less = set_phase-work m.id m.phase r.entries d m.known m.less in
      let same = ap (λ (t : Round). work t.entries) m.result in omega arith

  -- Over a run the plans stay, and the moves made are at most the work that they did.
  pub run-work :
      (ms : List Move) (r s : Round)
      → Distinct (ids_of (plans r.entries))
      → run h ms r ≡ some s
      → (plans s.entries ≡ plans r.entries) × (length ms + work s.entries ≤ work r.entries)
  unfolding run
  run-work [] r s d q =
      let same : r ≡ s = cc in
      let less = ap (λ (t : Round). work t.entries) same in
      (ap (λ (t : Round). plans t.entries) (sym same), omega arith)
  run-work (m ∷ ms) r s d q = elim (Option-cases (apply h m r)) [
    | inl closed ↦ absurd (ground arith)
    | inr (t, went) ↦
        let step = apply-Moves m r t went in
        let same = Moves-plans step in
        let rest =
          run-work ms t s (subst (λ cs. Distinct (ids_of cs)) (sym same) d) (ground arith) in
        let less = Moves-work step d in (rest.0 ∙ same, omega arith)
  ]
