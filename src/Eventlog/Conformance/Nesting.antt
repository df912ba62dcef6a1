-- ===== src/Eventlog/Conformance/Nesting.antt =====
-- The check of src/eventlog/conformance/worktree.ts against a diagram of states for each tree.
use corellia.Prelude.{
  ℕ, suc, ◌≡◌, ◌↔◌, refl, String, Option, none, some, List, [], ◌∷◌, Bool, true, false, arith,
  append-empty, append-empty_intro, subst, if◌then◌else◌, str_eq, Bool-cases, Option-cases, inl,
  inr, str_eq→eq, str_eq_self,
}
use corellia.Contract.Events.{FactoryEvent}
use corellia.Eventlog.Conformance.Worktree.{
  Act, create, employ, close, Touch, touch_of, Lifecycle, nothing_seen, lifecycle_step,
  worktree_from, check_worktree_lifecycle,
}

-- A tree has no worktree yet, has one, or has had one that was collected or preserved.
pub data Phase : Type 0 where
  absent live closed : Phase

-- The phase after an act, where the act is in order.
abbrev pub act_in : Phase → Act → Option Phase
act_in absent create = some live
act_in closed create = some live
act_in live employ = some live
act_in live close = some closed
act_in _ _ = none

-- The acts on the worktree of one tree are in order throughout the log.
abbrev pub accepts : String → Phase → List FactoryEvent → Bool
accepts tree p [] = true
accepts tree p (e ∷ es) = elim (touch_of e.body) [
  | none ↦ accepts tree p es
  | some t ↦
      if str_eq t.tree_id tree
      then elim (act_in p t.act) [ none ↦ false | some p' ↦ accepts tree p' es ]
      else accepts tree p es
]

abbrev phase_of : Option ℕ → Option ℕ → Phase
phase_of none terminated = absent
phase_of (some created) none = live
phase_of (some created) (some terminated) = closed

abbrev phase : Lifecycle → String → Phase
phase s tree = phase_of (s.created_at tree) (s.terminated_at tree)

-- A step is silent exactly where its act is in order.
step_silent :
    (e : FactoryEvent) (t : Touch) (i : ℕ) (s : Lifecycle)
    → (lifecycle_step e t i s).0 ≡ []
    → act_in (phase s t.tree_id) t.act ≡ some (phase (lifecycle_step e t i s).1 t.tree_id)
unfolding lifecycle_step
step_silent e t i s h = ground (arith, str_eq_self t.tree_id)

step_in_order :
    (e : FactoryEvent) (t : Touch) (i : ℕ) (s : Lifecycle) (p : Phase)
    → act_in (phase s t.tree_id) t.act ≡ some p
    → ((lifecycle_step e t i s).0 ≡ []) × (phase (lifecycle_step e t i s).1 t.tree_id ≡ p)
unfolding lifecycle_step
step_in_order e t i s p h = ground (arith, str_eq_self t.tree_id)

step_elsewhere :
    (e : FactoryEvent) (t : Touch) (i : ℕ) (s : Lifecycle) (tree : String)
    → str_eq t.tree_id tree ≡ false
    → phase (lifecycle_step e t i s).1 tree ≡ phase s tree
unfolding lifecycle_step
step_elsewhere e t i s tree h = ground arith

-- A tree whose acts the check has passed is accepted.
silent_accepts :
    (i : ℕ) (s : Lifecycle) (es : List FactoryEvent) (tree : String)
    → worktree_from i s es ≡ []
    → accepts tree (phase s tree) es ≡ true
unfolding worktree_from
silent_accepts i s [] tree h = refl
silent_accepts i s (e ∷ es) tree h = elim (Option-cases (touch_of e.body)) [
  | inl k ↦ rw (k, accepts) (silent_accepts (suc i) s es tree (rw (k, worktree_from) at h))
  | inr (t, k) ↦
      let (here, rest) = append-empty _ _ (rw (k, worktree_from) at h) in
      let later = silent_accepts (suc i) (lifecycle_step e t i s).1 es tree rest in
      elim (Bool-cases (str_eq t.tree_id tree)) [
        | inl q ↦
            let ok = step_silent e t i s here in
            let same = str_eq→eq t.tree_id tree q in
            rw (k, accepts)
              (rw q (
                rw
                  (subst (λ x. act_in (phase s x) t.act ≡ some (phase (lifecycle_step e t i s).1 x))
                    same ok)
                  later))
        | inr q ↦
            rw (k, accepts)
              (rw q (subst (λ p. accepts tree p es ≡ true) (step_elsewhere e t i s tree q) later))
      ]
]

accepts_silent :
    (i : ℕ) (s : Lifecycle) (es : List FactoryEvent)
    → ((tree : String) → accepts tree (phase s tree) es ≡ true)
    → worktree_from i s es ≡ []
unfolding worktree_from
accepts_silent i s [] h = refl
accepts_silent i s (e ∷ es) h = elim (Option-cases (touch_of e.body)) [
  | inl k ↦
      rw (k, worktree_from) (accepts_silent (suc i) s es (λ tree. rw (k, accepts) at (h tree)))
  | inr (t, k) ↦ elim (Option-cases (act_in (phase s t.tree_id) t.act)) [
    | inl refused ↦ let bad = h t.tree_id in absurd (ground (arith, str_eq_self t.tree_id))
    | inr (p, ok) ↦
        let (quiet, next) = step_in_order e t i s p ok in
        rw (k, worktree_from)
          (append-empty_intro _ _ quiet
            (accepts_silent (suc i) (lifecycle_step e t i s).1 es (later t k p ok next)))
  ]
]
  where
    later :
        (t : Touch)
        → touch_of e.body ≡ some t
        → (p : Phase) → act_in (phase s t.tree_id) t.act ≡ some p
        → phase (lifecycle_step e t i s).1 t.tree_id ≡ p
        → (tree : String) → accepts tree (phase (lifecycle_step e t i s).1 tree) es ≡ true
    later t k p ok next tree = elim (Bool-cases (str_eq t.tree_id tree)) [
      | inl q ↦
          let same = str_eq→eq t.tree_id tree q in
          let at_tree = h t.tree_id in
          subst (λ x. accepts x (phase (lifecycle_step e t i s).1 x) es ≡ true) same
            (ground (arith, str_eq_self t.tree_id))
      | inr q ↦ let at_tree = h tree in let kept = step_elsewhere e t i s tree q in ground arith
    ]

-- The check of worktrees is silent on exactly the logs in which each tree's worktree is created
-- before it is used, not created again while it is live, and not used once it was collected or
-- preserved, until it is created anew.
pub check_worktree_lifecycle-accepts :
    (es : List FactoryEvent)
    → check_worktree_lifecycle es ≡ [] ↔ ((tree : String) → accepts tree absent es ≡ true)
unfolding check_worktree_lifecycle
check_worktree_lifecycle-accepts es =
    (λ h tree. silent_accepts 0 nothing_seen es tree h, λ h. accepts_silent 0 nothing_seen es h)
