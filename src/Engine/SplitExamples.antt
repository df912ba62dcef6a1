-- ===== src/Engine/SplitExamples.antt =====
-- Runs of the split pipeline of src/engine/ on small splits.
use corellia.Prelude.{
  ◌+◌, ◌≤◌, ◌≡◌, ◌≢◌, ◌↔◌, ◌⊎◌, refl, String, List, [], ◌∷◌, none, some, true, length, arith,
}
use corellia.Contract.Goal.{MemoryPointer}
use corellia.Contract.Decision.{split}
use corellia.Contract.Report.{Report}
use corellia.Engine.Reports.{blocked_report}
use corellia.Engine.Samples.{world_of}
use corellia.Engine.SplitValidation.Cycle.{
  Cyclic, dep_map, dependencies, has_dependency_cycle, has_dependency_cycle-Cyclic,
  dependency_search,
}
use corellia.Engine.SplitValidation.Shares.{total_share, renormalize_shares, validate_budget_shares}
use corellia.Engine.SplitValidation.Search.{add, delete, mark, unmark, leave, visit_each, visit}
use corellia.Engine.SplitValidation.Check.{
  validate_split, set_of, validate_child_types, child_type_errors, child_type_error, fit_error,
  validate_dependency_graph, dependency_errors, dependency_error,
}
use corellia.Engine.SplitValidation.Accepts.{IsSplit, validate_split-IsSplit}
use corellia.Engine.Budget.{subdivide}
use corellia.Engine.SplitChildren.Goals.{build_split_child_goals}
use corellia.Engine.SplitChildren.DiveFloor.{classify_fatal_deps}
use corellia.Engine.SplitChildren.Prepare.{returned, prepare, conclude}
use corellia.Engine.SplitChildren.Run.{
  Move, begins, ends, run, apply, begin, begin_entry, end_child, entry_of, entries_of, missing,
  dependency_reports, moved, set_phase, open_round, reports_of,
}
use corellia.Engine.SplitChildren.Waits.{CanMove}
use corellia.Engine.SplitChildren.Progress.{split_completes}
use corellia.Engine.World.{append_event}
use corellia.Engine.TreeSpend.{has_reached_spend_ceiling, debit_tree_state}
use corellia.Engine.SplitAcceptance.Verdicts.{judge_split_decision, append_golden_candidate}
use corellia.Engine.SplitAcceptance.Turn.{
  accepted, turn, decision_turn, validated_turn, augment_split_for_coverage, covered_turn,
  judge_turn,
}
use corellia.Engine.SplitAcceptance.Loop.{accept_split_decision}
use corellia.Engine.SplitAcceptance.Proper.{accepted-IsProper}
use corellia.Engine.SplitAcceptance.Priced.{IsPriced}
use corellia.Engine.SplitAcceptance.Ends.{accept_split_decision_ends}
use corellia.Engine.SplitSamples.{
  triangle, pair, heavy, known_types, hooks, round_of, acceptance, world_after,
}

has_dependency_cycle-Cyclic_example : (has_dependency_cycle triangle ≡ true) ↔ Cyclic triangle
has_dependency_cycle-Cyclic_example = has_dependency_cycle-Cyclic triangle

triangle_is_cyclic : has_dependency_cycle triangle ≡ true
unfolding has_dependency_cycle dependency_search visit_each visit leave dependencies dep_map mark
    add unmark delete
triangle_is_cyclic = refl

heavy_total : total_share (renormalize_shares heavy) ≡ 999999
unfolding renormalize_shares total_share
heavy_total = refl

validate_split-IsSplit_example :
    (validate_split pair (some known_types) ≡ none) ↔ IsSplit pair (some known_types)
validate_split-IsSplit_example = validate_split-IsSplit pair (some known_types)

pair_is_valid : validate_split pair (some known_types) ≡ none
unfolding validate_split set_of validate_child_types child_type_errors child_type_error fit_error
    validate_budget_shares total_share validate_dependency_graph dependency_errors dependency_error
    has_dependency_cycle dependency_search visit_each visit leave dependencies dep_map mark add
    unmark delete
pair_is_valid = refl

abbrev query : String → List String → String → List MemoryPointer
query title scope type = []

-- The first child runs and reports, and the second begins.
abbrev moves : List Move
moves =
    begins "a"
    ∷ ends "a" (returned (blocked_report "stuck" [] none)) (world_of 1 none)
    ∷ begins "b"
    ∷ []

moves_open :
    run hooks moves (open_round hooks pair query (world_of 0 none))
    ≡ some (round_of (run hooks moves (open_round hooks pair query (world_of 0 none))))
unfolding run apply begin begin_entry end_child entry_of open_round entries_of
    build_split_child_goals subdivide missing dependency_reports moved set_phase prepare
    classify_fatal_deps conclude
moves_open = refl

split_completes_example :
    (length moves ≤ length pair + length pair)
    × (((reports : List Report) × (reports_of
              (round_of (run hooks moves (open_round hooks pair query (world_of 0 none)))).entries
            ≡ some reports)
          × (length reports ≡ length pair))
        ⊎ CanMove hooks
            (round_of (run hooks moves (open_round hooks pair query (world_of 0 none)))))
split_completes_example =
    split_completes hooks pair (some known_types) query (world_of 0 none) moves
      (round_of (run hooks moves (open_round hooks pair query (world_of 0 none)))) pair_is_valid
      moves_open

acceptance-IsPriced : IsPriced acceptance
acceptance-IsPriced = record {
  costs = λ g c w. omega arith;
  decides = λ g c w. (omega arith, refl);
  judges = λ g x r t w. (omega arith, refl);
  queries = λ k root w e. absurd (cc);
  validates = λ k x w e. absurd (cc);
}

accept_split_decision_ends_example :
    accept_split_decision acceptance 101 triangle none (world_of 0 none) ≢ none
accept_split_decision_ends_example =
    accept_split_decision_ends acceptance acceptance-IsPriced 101 triangle none (world_of 0 none)
      (omega arith)

pair_accepted :
    accept_split_decision acceptance 5 pair none (world_of 0 none)
    ≡ some (
      accepted (split pair) none,
      world_after (accept_split_decision acceptance 5 pair none (world_of 0 none)),
    )
unfolding accept_split_decision turn decision_turn validated_turn augment_split_for_coverage
    covered_turn judge_turn renormalize_shares has_reached_spend_ceiling debit_tree_state
    judge_split_decision append_golden_candidate append_event validate_split set_of
    validate_child_types child_type_errors child_type_error fit_error validate_budget_shares
    total_share validate_dependency_graph dependency_errors dependency_error has_dependency_cycle
    dependency_search visit_each visit leave dependencies dep_map mark add unmark delete
pair_accepted = refl

accepted-IsProper_example : IsSplit pair (some known_types)
accepted-IsProper_example =
    accepted-IsProper acceptance 5 pair none (world_of 0 none) (split pair) none
      (world_after (accept_split_decision acceptance 5 pair none (world_of 0 none))) pair_accepted
