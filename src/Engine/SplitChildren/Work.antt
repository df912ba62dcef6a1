-- ===== src/Engine/SplitChildren/Work.antt =====
-- What is left to do in a round of src/engine/split-children.ts.
use corellia.Prelude.{
  ℕ, ◌+◌, ◌<◌, ◌≡◌, ◌⊎◌, inl, inr, refl, sym, ap, subst, String, none, some, Option-cases, List, [],
  ◌∷◌, map, true, false, In, str_eq, str_eq→eq, ne→str_eq, Bool-cases, arith,
}
use corellia.Contract.Decision.{ChildPlan}
use corellia.Engine.SplitValidation.SetOf.{Distinct}
use corellia.Engine.SplitValidation.Cycle.{ids_of}
use corellia.Engine.SplitChildren.Prepare.{Phase, waiting, running, finished}
use corellia.Engine.SplitChildren.Run.{Entry, entry_of, set_phase}

abbrev pub plans : List Entry → List ChildPlan
plans es = map (λ e. e.plan) es

-- How many moves a child has before it at most.
abbrev pub weight : Phase → ℕ
weight waiting = 2
weight (running goal findings) = 1
weight (finished report) = 0

unfoldable pub work : List Entry → ℕ
work [] = 0
work (e ∷ es) = weight e.phase + work es

pub set_phase-plans :
    (id : String) (p : Phase) (es : List Entry) → plans (set_phase id p es) ≡ plans es
unfolding set_phase
set_phase-plans id p [] = refl
set_phase-plans id p (e ∷ es) =
    let rest = set_phase-plans id p es in
    elim (Bool-cases (str_eq e.plan.local_id id)) [
      | inl q ↦ rw q (ap (λ xs. e.plan ∷ xs) rest)
      | inr q ↦ rw q (ap (λ xs. e.plan ∷ xs) rest)
    ]

entry_of-cons :
    (f : Entry) (fs : List Entry) (id : String) {e : Entry}
    → entry_of (f ∷ fs) id ≡ some e
    → (entry_of fs id ≡ some e)
      ⊎ ((entry_of fs id ≡ none) × (str_eq f.plan.local_id id ≡ true) × (f ≡ e))
unfolding entry_of
entry_of-cons f fs id {e} h = elim (Option-cases (entry_of fs id)) [
  | inr (g, q) ↦ inl (ground arith)
  | inl q ↦ elim (Bool-cases (str_eq f.plan.local_id id)) [
    | inl k ↦ inr (q, k, ground arith)
    | inr k ↦ absurd (ground arith)
  ]
]

pub entry_of-In :
    (es : List Entry) (id : String) {e : Entry}
    → entry_of es id ≡ some e
    → In id (ids_of (plans es))
entry_of-In [] id h = unfold entry_of in cc
entry_of-In (f ∷ fs) id h = elim (entry_of-cons f fs id h) [
  | inl q ↦ inr (entry_of-In fs id q)
  | inr (q, k, same) ↦ inl (sym (str_eq→eq f.plan.local_id id k))
]

set_phase-absent :
    (id : String) (p : Phase) (es : List Entry)
    → ¬ In id (ids_of (plans es))
    → set_phase id p es ≡ es
unfolding set_phase
set_phase-absent id p [] h = refl
set_phase-absent id p (e ∷ es) h =
    let rest = set_phase-absent id p es (λ m. h (inr m)) in
    elim (Bool-cases (str_eq e.plan.local_id id)) [
      | inl q ↦ absurd (h (inl (sym (str_eq→eq e.plan.local_id id q))))
      | inr q ↦ rw q (ap (λ xs. e ∷ xs) rest)
    ]

-- A phase with less before it leaves less to do, where no two children have one name.
pub set_phase-work :
    (id : String) (p : Phase) (es : List Entry) {e : Entry}
    → Distinct (ids_of (plans es))
    → entry_of es id ≡ some e
    → weight p < weight e.phase
    → work (set_phase id p es) < work es
unfolding set_phase work
set_phase-work id p [] d h lt = absurd (unfold entry_of in cc)
set_phase-work id p (f ∷ fs) d h lt = elim (entry_of-cons f fs id h) [
  | inl q ↦
      let other : str_eq f.plan.local_id id ≡ false =
        ne→str_eq f.plan.local_id id
          (λ k. d.0 (subst (λ x. In x (ids_of (plans fs))) (sym k) (entry_of-In fs id q))) in
      let rest = set_phase-work id p fs d.1 q lt in rw other (omega arith)
  | inr (q, k, same) ↦
      let name = str_eq→eq f.plan.local_id id k in
      let kept =
        set_phase-absent id p fs (λ m. d.0 (subst (λ x. In x (ids_of (plans fs))) (sym name) m)) in
      let left = ap (λ (e : Entry). weight e.phase) same in rw k (rw kept (omega arith))
]
