-- ===== src/Eventlog/Conformance/Worktree.antt =====
-- src/eventlog/conformance/worktree.ts: the life of each worktree, well nested by its tree.
-- A Map that is never iterated is a function to options.
use corellia.Prelude.{
  ℕ, suc, String, Option, none, some, List, [], ◌∷◌, ◌++◌, if◌then◌else◌, str_eq,
}
use corellia.Prelude.Text.{concat, show}
use corellia.Contract.Events.{
  EventBody, worktree_created, worktree_collected, worktree_preserved, branch_pushed, pr_opened,
  FactoryEvent,
}
use corellia.Eventlog.Conformance.Violation.{ConformanceViolation, worktree_well_nested}

-- What an event does to the worktree of a tree: `treeIdOf`, and the tests on its type.
pub data Act : Type 0 where
  create employ close : Act

pub record Touch : Type 0 where
  pub tree_id : String
  pub act : Act
  pub type_name : String

unfoldable pub touch_of : EventBody → Option Touch
touch_of body = elim body [
  | worktree_created tree branch path ↦
      some (record { tree_id = tree; act = create; type_name = "worktree-created" })
  | worktree_collected tree branch commits ↦
      some (record { tree_id = tree; act = close; type_name = "worktree-collected" })
  | worktree_preserved tree branch path reason ↦
      some (record { tree_id = tree; act = close; type_name = "worktree-preserved" })
  | branch_pushed tree branch remote ↦
      some (record { tree_id = tree; act = employ; type_name = "branch-pushed" })
  | pr_opened tree branch url ↦
      some (record { tree_id = tree; act = employ; type_name = "pr-opened" })
  | _ ↦ none
]

abbrev pub Index : Type 0
Index = String → Option ℕ

-- `m.set(k, v)` and `m.delete(k)`, as one write.
abbrev pub write : String → Option ℕ → Index → Index
write k v m s = if str_eq k s then v else m s

pub record Lifecycle : Type 0 where
  pub created_at : Index
  pub terminated_at : Index

abbrev pub nothing_seen : Lifecycle
nothing_seen = record { created_at = λ s. none; terminated_at = λ s. none }

recreated : FactoryEvent → String → ℕ → ℕ → ConformanceViolation
recreated e tree created i = record {
  invariant = worktree_well_nested;
  goal_id = e.goal_id;
  indices = created ∷ i ∷ [];
  detail = concat (
      "worktree \""
      ∷ tree
      ∷ "\" created again (index "
      ∷ show i
      ∷ ") before its prior instance (index "
      ∷ show created
      ∷ ") was collected or preserved"
      ∷ []);
}

never_created : FactoryEvent → Touch → ℕ → ConformanceViolation
never_created e t i = record {
  invariant = worktree_well_nested;
  goal_id = e.goal_id;
  indices = i ∷ [];
  detail = concat (
      "worktree \""
      ∷ t.tree_id
      ∷ "\" used by "
      ∷ t.type_name
      ∷ " (index "
      ∷ show i
      ∷ ") but was never created"
      ∷ []);
}

used_after : FactoryEvent → Touch → ℕ → ℕ → ConformanceViolation
used_after e t terminated i = record {
  invariant = worktree_well_nested;
  goal_id = e.goal_id;
  indices = terminated ∷ i ∷ [];
  detail = concat (
      "worktree \""
      ∷ t.tree_id
      ∷ "\" used by "
      ∷ t.type_name
      ∷ " (index "
      ∷ show i
      ∷ ") after it was already collected/preserved (index "
      ∷ show terminated
      ∷ ")"
      ∷ []);
}

-- One event that concerns a worktree: the violations it adds, and the maps after it.
unfoldable pub lifecycle_step :
    FactoryEvent → Touch → ℕ → Lifecycle → List ConformanceViolation × Lifecycle
unfolding recreated never_created used_after
lifecycle_step e t i s = elim t.act [
  | create ↦ (
    elim (s.created_at t.tree_id) [
      | none ↦ []
      | some created ↦ elim (s.terminated_at t.tree_id) [
        | none ↦ recreated e t.tree_id created i ∷ []
        | some terminated ↦ []
      ]
    ],
    record {
      created_at = write t.tree_id (some i) s.created_at;
      terminated_at = write t.tree_id none s.terminated_at;
    },
  )
  | other ↦ elim (s.created_at t.tree_id) [
    | none ↦ (never_created e t i ∷ [], s)
    | some created ↦ elim (s.terminated_at t.tree_id) [
      | some terminated ↦ (used_after e t terminated i ∷ [], s)
      | none ↦ elim other [
        | close ↦ ([], record s { terminated_at = write t.tree_id (some i) s.terminated_at })
        | _ ↦ ([], s)
      ]
    ]
  ]
]

unfoldable pub worktree_from : ℕ → Lifecycle → List FactoryEvent → List ConformanceViolation
worktree_from i s [] = []
worktree_from i s (e ∷ es) = elim (touch_of e.body) [
  | none ↦ worktree_from (suc i) s es
  | some t ↦
      let (violations, s') = lifecycle_step e t i s in violations ++ worktree_from (suc i) s' es
]

unfoldable pub check_worktree_lifecycle : List FactoryEvent → List ConformanceViolation
check_worktree_lifecycle events = worktree_from 0 nothing_seen events
