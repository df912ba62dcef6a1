-- ===== src/Engine/SplitChildren/Progress.antt =====
-- An accepted split of src/engine/split-children.ts never waits for ever.
use corellia.Prelude.{
  ◌+◌, ◌≤◌, ◌≡◌, ◌⊎◌, inl, inr, refl, sym, ap, ◌∙◌, subst, String, Option, none, some, Option-cases,
  List, [], ◌∷◌, str_eq_self, length, arith,
}
use corellia.Contract.Goal.{Goal}
use corellia.Contract.Decision.{ChildPlan}
use corellia.Contract.GoalType.{GoalTypeDef}
use corellia.Contract.Report.{Report}
use corellia.Engine.World.{World}
use corellia.Engine.SplitValidation.Cycle.{ids_of, Cyclic, acyclic-Grounded}
use corellia.Engine.SplitValidation.Check.{validate_split}
use corellia.Engine.SplitValidation.SetOf.{Distinct}
use corellia.Engine.SplitValidation.Accepts.{validate_split-IsSplit}
use corellia.Engine.SplitChildren.Prepare.{Hooks}
use corellia.Engine.SplitChildren.Goals.{
  Query, build_split_child_goals, length-build_split_child_goals,
}
use corellia.Engine.SplitChildren.Run.{
  Entry, Round, entry_of, report_of, Move, run, entries_of, reports_of, open_round,
}
use corellia.Engine.SplitChildren.Work.{plans, work, entry_of-In}
use corellia.Engine.SplitChildren.Moves.{run-work}
use corellia.Engine.SplitChildren.Waits.{CanMove, unreported-CanMove}

entries_of-plans :
    (cs : List ChildPlan) (gs : List Goal) → length gs ≡ length cs → plans (entries_of cs gs) ≡ cs
unfolding entries_of
entries_of-plans [] gs h = refl
entries_of-plans (c ∷ cs) [] h = absurd (omega arith)
entries_of-plans (c ∷ cs) (g ∷ gs) h = ap (λ xs. c ∷ xs) (entries_of-plans cs gs (omega arith))

entries_of-work :
    (cs : List ChildPlan) (gs : List Goal) → work (entries_of cs gs) ≤ length cs + length cs
unfolding entries_of work
entries_of-work [] gs = omega arith
entries_of-work (c ∷ cs) [] = omega arith
entries_of-work (c ∷ cs) (g ∷ gs) = let rest = entries_of-work cs gs in omega arith

-- Where a report is out, some child has not reported.
reports_of-none :
    (es : List Entry)
    → Distinct (ids_of (plans es))
    → reports_of es ≡ none
    → (id : String) × (e : Entry) × (entry_of es id ≡ some e) × (report_of e.phase ≡ none)
unfolding reports_of entry_of
reports_of-none [] d h = absurd (ground arith)
reports_of-none (e ∷ es) d h = elim (Option-cases (report_of e.phase)) [
  | inl unsent ↦
      let self = str_eq_self e.plan.local_id in
      let absent : entry_of es e.plan.local_id ≡ none =
        elim (Option-cases (entry_of es e.plan.local_id)) [
          | inl q ↦ q
          | inr (f, q) ↦ absurd (d.0 (entry_of-In es e.plan.local_id q))
        ] in
      (e.plan.local_id, e, ground arith, unsent)
  | inr (r, done) ↦
      let (id, f, known, unsent) = reports_of-none es d.1 (ground arith) in
      (id, f, ground arith, unsent)
]

length-reports_of :
    (es : List Entry) (rs : List Report) → reports_of es ≡ some rs → length rs ≡ length (plans es)
unfolding reports_of
length-reports_of [] rs h = let same : [] ≡ rs = cc in rw (← same)
length-reports_of (e ∷ es) rs h = elim (Option-cases (report_of e.phase)) [
  | inl q ↦ absurd (ground arith)
  | inr (r, q) ↦ elim (Option-cases (reports_of es)) [
    | inl k ↦ absurd (ground arith)
    | inr (ss, k) ↦
        let rest = length-reports_of es ss k in
        let same : r ∷ ss ≡ rs = ground arith in rw (← same) (omega arith)
  ]
]

open_round-plans :
    (h : Hooks) (cs : List ChildPlan) (query : Query) (w : World)
    → plans (open_round h cs query w).entries ≡ cs
unfolding open_round
open_round-plans h cs query w =
    entries_of-plans cs (build_split_child_goals h.parent cs query)
      (length-build_split_child_goals h.parent cs query)

open_round-work :
    (h : Hooks) (cs : List ChildPlan) (query : Query) (w : World)
    → work (open_round h cs query w).entries ≤ length cs + length cs
unfolding open_round
open_round-work h cs query w = entries_of-work cs (build_split_child_goals h.parent cs query)

-- In a round of a split that the validation accepts, after any moves from its start: they are two
-- for each child at most, and every child has reported, with one report for each, or some move is
-- open.
pub split_completes :
    (h : Hooks) (children : List ChildPlan) (resolve_type : Option (String → Option GoalTypeDef))
    (query : Query) (w : World) (ms : List Move) (r : Round)
    → validate_split children resolve_type ≡ none
    → run h ms (open_round h children query w) ≡ some r
    → (length ms ≤ length children + length children)
      × (((reports : List Report) × (reports_of r.entries ≡ some reports)
            × (length reports ≡ length children))
          ⊎ CanMove h r)
split_completes h children resolve_type query w ms r ok went =
    let proper = (validate_split-IsSplit children resolve_type).0 ok in
    let start = open_round h children query w in
    let first = open_round-plans h children query w in
    let ended =
      run-work h ms start r (subst (λ cs. Distinct (ids_of cs)) (sym first) proper.distinct) went in
    let same : plans r.entries ≡ children = ended.0 ∙ first in
    let all = open_round-work h children query w in
    (
      omega arith,
      elim (Option-cases (reports_of r.entries)) [
        | inr (reports, q) ↦
            inl (reports, q, length-reports_of r.entries reports q ∙ ap length same)
        | inl q ↦
            let (id, e, known, unsent) =
              reports_of-none r.entries
                (subst (λ cs. Distinct (ids_of cs)) (sym same) proper.distinct) q in
            inr (
              unreported-CanMove h r id e
                (acyclic-Grounded (plans r.entries) id
                  (subst (λ cs. ¬ Cyclic cs) (sym same) proper.acyclic)
                  (entry_of-In r.entries id known))
                known unsent)
      ],
    )
