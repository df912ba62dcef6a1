-- ===== src/Eventlog/Conformance/HandsOff.antt =====
-- The check of src/eventlog/conformance/judge-writes.ts against what it asks of a log.
use corellia.Prelude.{
  ℕ, suc, ◌≡◌, ◌↔◌, refl, sym, ◌∙◌, subst, Bool-cases, String, Option, none, some, List, [], ◌∷◌,
  false, arith, All, append-empty, append-empty_intro, if◌then◌else◌, str_eq, Option-cases, inl,
  inr,
}
use corellia.Contract.Events.{goal_received, FactoryEvent}
use corellia.Eventlog.Conformance.Violation.{ConformanceViolation}
use corellia.Eventlog.Conformance.JudgeWrites.{
  TypeIndex, receive, goal_type_index, write_of, Resolver, classify, write_violation, judge_write,
  judge_writes_from, check_no_judge_authored_writes,
}

-- The type of the last goal that the log receives under an id.
abbrev pub last_received : String → List FactoryEvent → Option String
last_received id [] = none
last_received id (e ∷ es) = elim (last_received id es) [
  | some name ↦ some name
  | none ↦ elim e.body [
    | goal_received goal ↦ if str_eq e.goal_id id then some goal.type else none
    | _ ↦ none
  ]
]

index-last_received :
    (es : List FactoryEvent) (index : TypeIndex) (id : String)
    → goal_type_index es index id
      ≡ elim (last_received id es) [ none ↦ index id | some name ↦ some name ]
unfolding goal_type_index receive
index-last_received [] index id = refl
index-last_received (e ∷ es) index id =
    let rest = index-last_received es (receive e index) id in ground arith

-- A goal whose type, where it has one, is a judging one leaves no event that writes.
abbrev pub IsHarmless : Resolver → List FactoryEvent → FactoryEvent → Type 0
IsHarmless resolver es e =
    (written name : String)
    → write_of e.body ≡ some written
    → last_received e.goal_id es ≡ some name
    → (classify resolver name).judge_kind ≡ false

abbrev pub IsHandsOff : Resolver → List FactoryEvent → Type 0
IsHandsOff resolver es = All (IsHarmless resolver es) es

module _ (resolver : Resolver) (all : List FactoryEvent) where
  index_of : TypeIndex
  index_of = goal_type_index all (λ s. none)

  indexed : (id : String) → index_of id ≡ last_received id all
  unfolding index_of
  indexed id = let known = index-last_received all (λ s. none) id in ground arith

  judge_write-IsHarmless :
      (i : ℕ) (e : FactoryEvent)
      → judge_write resolver index_of i e ≡ [] ↔ IsHarmless resolver all e
  unfolding judge_write
  judge_write-IsHarmless i e = elim (Option-cases (write_of e.body)) [
    | inl w ↦ (λ h written name p q. absurd (none-some (sym w ∙ p)), λ h. rw (w, judge_write) refl)
    | inr (written, w) ↦ elim (Option-cases (last_received e.goal_id all)) [
      | inl g ↦ (
        λ h written' name p q. absurd (none-some (sym g ∙ q)),
        λ h. rw (w, judge_write) (rw (indexed e.goal_id) (rw g refl)),
      )
      | inr (name, g) ↦ (
        λ h written' name' p q.
            subst (λ n. (classify resolver n).judge_kind ≡ false) (some_eq (sym g ∙ q))
              (quiet written name (rw g at (rw (indexed e.goal_id) at (rw (w, judge_write) at h)))),
        λ h. rw (w, judge_write) (rw (indexed e.goal_id) (rw g (rw (h written name w g) refl))),
      )
    ]
  ]
    where
      none-some : {A : Type 0} {a : A} → none ≡ some a → ⊥
      none-some x = cc

      some_eq : {a b : String} → some a ≡ some b → a ≡ b
      some_eq x = cc

      cons-nil : {v : ConformanceViolation} {vs : List ConformanceViolation} → v ∷ vs ≡ [] → ⊥
      cons-nil x = cc

      quiet :
          (written name : String)
          → (let c = classify resolver name in
              if c.judge_kind then write_violation e i name written c.by_convention ∷ [] else [])
            ≡ []
          → (classify resolver name).judge_kind ≡ false
      quiet written name h = elim (Bool-cases (classify resolver name).judge_kind) [
        | inr q ↦ q
        | inl q ↦ absurd (cons-nil (rw q at h))
      ]

  judge_writes_from-All :
      (i : ℕ) (es : List FactoryEvent)
      → judge_writes_from resolver index_of i es ≡ [] ↔ All (IsHarmless resolver all) es
  unfolding judge_writes_from
  judge_writes_from-All i [] = (λ h. tt, λ h. refl)
  judge_writes_from-All i (e ∷ es) =
      let rest = judge_writes_from-All (suc i) es in
      (
        λ h. let (a, b) = append-empty _ _ h in ((judge_write-IsHarmless i e).0 a, rest.0 b),
        λ h. append-empty_intro _ _ ((judge_write-IsHarmless i e).1 h.0) (rest.1 h.1),
      )

-- The check of writes is silent on exactly the logs in which no goal whose type is a judging one,
-- by the resolver or, where that knows no kind, by its name, leaves an event that writes.
pub check_no_judge_authored_writes-IsHandsOff :
    (resolver : Resolver) (es : List FactoryEvent)
    → check_no_judge_authored_writes es resolver ≡ [] ↔ IsHandsOff resolver es
unfolding check_no_judge_authored_writes index_of
check_no_judge_authored_writes-IsHandsOff resolver es = judge_writes_from-All resolver es 0 es
