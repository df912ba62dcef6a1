-- ===== src/Substrate/PatternStore/Tally.antt =====
-- The memos of src/substrate/memory-pattern-store.ts tell the calls that made them.
use corellia.Prelude.{
  ◌<◌, ◌≡◌, refl, sym, ap, ◌∙◌, subst, String, Option, none, some, List, [], ◌∷◌, true, false,
  str_eq, str_eq_self, str_eq→eq, str_eq→ne, if◌then◌else◌, Bool-cases, inl, inr, if_intro, arith,
}
use corellia.Contract.Goal.{Trust}
use corellia.Contract.Decision.{ChildPlan}
use corellia.Contract.Events.{Outcome}
use corellia.Substrate.PatternStore.{
  SplitMemo, InMemoryPatternStore, match_shape, set_memo, scored, record_outcome, promote_found,
  promote, Call, records, promotes, after_calls, is_trusted, recorded, succeeded, failed, signed,
}

-- What the calls say of a shape's memo, or of its absence.
unfoldable pub Tells : List Call → String → Option SplitMemo → Type 0
Tells cs shape none = recorded shape cs ≡ 0
Tells cs shape (some m) =
    (m.shape ≡ shape)
    × (0 < recorded shape cs)
    × (m.uses ≡ recorded shape cs)
    × (m.successes ≡ succeeded shape cs)
    × (m.failures ≡ failed shape cs)
    × (is_trusted m.status ≡ true → signed shape cs ≡ true)

only_one : (a b c : String) → str_eq a b ≡ false → str_eq a c ≡ true → str_eq b c ≡ false
only_one a b c h k = elim (Bool-cases (str_eq b c)) [
  | inl f ↦ absurd (str_eq→ne a b h (str_eq→eq a c k ∙ sym (str_eq→eq b c f)))
  | inr f ↦ f
]

abbrev shape_of : Call → String
shape_of (records s d o) = s
shape_of (promotes s to) = s

match-set_memo :
    (m : SplitMemo) (s : InMemoryPatternStore) (shape : String)
    → match_shape (set_memo m s) shape
      ≡ (if str_eq m.shape shape then some m else match_shape s shape)
unfolding match_shape set_memo
match-set_memo m [] shape = refl
match-set_memo m (n ∷ ns) shape =
    let rest = match-set_memo m ns shape in
    elim (Bool-cases (str_eq n.shape m.shape)) [
      | inl e ↦
          rw e (let q = ap (λ x. str_eq x shape) (str_eq→eq n.shape m.shape e) in ground arith)
      | inr e ↦ rw e (let one = only_one n.shape m.shape shape e in ground arith)
    ]

succeeded-zero :
    (shape : String) (cs : List Call)
    → recorded shape cs ≡ 0
    → (succeeded shape cs ≡ 0) × (failed shape cs ≡ 0)
unfolding recorded succeeded failed
succeeded-zero shape [] h = (refl, refl)
succeeded-zero shape (records s d o ∷ cs) h = let rest = succeeded-zero shape cs in ground arith
succeeded-zero shape (promotes s to ∷ cs) h = succeeded-zero shape cs h

-- One call, seen by the shape that it is about and by another one.
scored-Tells :
    (cs : List Call) (shape : String) (d : List ChildPlan) (o : Outcome) (r : Option SplitMemo)
    → Tells cs shape r
    → Tells (records shape d o ∷ cs) shape (some (scored shape d o r))
unfolding Tells scored recorded succeeded failed signed
scored-Tells cs shape d o none h =
    let self = str_eq_self shape in
    let (a, b) = succeeded-zero shape cs h in unfold Tells in ground arith
scored-Tells cs shape d o (some m) (s, z, u, p, f, t) = let self = str_eq_self shape in ground arith

shape-scored :
    (cs : List Call) (shape : String) (d : List ChildPlan) (o : Outcome) (r : Option SplitMemo)
    → Tells cs shape r
    → (scored shape d o r).shape ≡ shape
unfolding scored Tells
shape-scored cs shape d o none h = refl
shape-scored cs shape d o (some m) h = h.0

-- A call about another shape says nothing new.
other-Tells :
    (cs : List Call) (c : Call) (shape : String) (r : Option SplitMemo)
    → str_eq (shape_of c) shape ≡ false
    → Tells cs shape r
    → Tells (c ∷ cs) shape r
unfolding Tells recorded succeeded failed signed
other-Tells cs (records s d o) shape none n h = ground arith
other-Tells cs (promotes s to) shape none n h = h
other-Tells cs (records s d o) shape (some m) n h = ground arith
other-Tells cs (promotes s to) shape (some m) n h = ground arith

promoted-Tells :
    (cs : List Call) (shape : String) (to : Trust) (m : SplitMemo)
    → Tells cs shape (some m)
    → Tells (promotes shape to ∷ cs) shape (some (record m { status = to }))
unfolding Tells recorded succeeded failed signed
promoted-Tells cs shape to m (s, z, u, p, f, t) =
    let self = str_eq_self shape in (s, z, u, p, f, λ k. ground arith)

unpromoted-Tells :
    (cs : List Call) (shape : String) (to : Trust)
    → Tells cs shape none
    → Tells (promotes shape to ∷ cs) shape none
unfolding Tells recorded
unpromoted-Tells cs shape to h = h

-- A memo that is written over the one of its shape.
set_memo-Tells :
    (cs : List Call) (c : Call) (s : InMemoryPatternStore) (m : SplitMemo) (shape : String)
    → m.shape ≡ shape_of c
    → Tells (c ∷ cs) (shape_of c) (some m)
    → Tells cs shape (match_shape s shape)
    → Tells (c ∷ cs) shape (match_shape (set_memo m s) shape)
set_memo-Tells cs c s m shape e own h =
    subst (Tells (c ∷ cs) shape) (sym (match-set_memo m s shape)) (
      if_intro (Tells (c ∷ cs) shape) (str_eq m.shape shape)
        (λ t. subst (λ x. Tells (c ∷ cs) x (some m)) (sym e ∙ str_eq→eq m.shape shape t) own)
        (λ f. other-Tells cs c shape _ (subst (λ x. str_eq x shape ≡ false) e f) h))

promote_found-Tells :
    (cs : List Call) (s : String) (to : Trust) (store : InMemoryPatternStore) (r : Option SplitMemo)
    (shape : String)
    → match_shape store s ≡ r
    → Tells cs s r
    → Tells cs shape (match_shape store shape)
    → Tells (promotes s to ∷ cs) shape (match_shape (promote_found to r store) shape)
unfolding promote_found
promote_found-Tells cs s to store (some m) shape e own h =
    set_memo-Tells cs (promotes s to) store (record m { status = to }) shape (unfold Tells in own.0)
      (promoted-Tells cs s to m own) h
promote_found-Tells cs s to store none shape e own h = elim (Bool-cases (str_eq s shape)) [
  | inl t ↦
      let q = str_eq→eq s shape t in
      subst (λ x. Tells (promotes s to ∷ cs) x (match_shape store x)) q
        (subst (Tells (promotes s to ∷ cs) s) (sym e) (unpromoted-Tells cs s to own))
  | inr f ↦ other-Tells cs (promotes s to) shape _ f h
]

-- After any calls, a shape has a memo exactly when an outcome of it was recorded. Its uses are the
-- records of the shape, its successes those of success and its failures those of failure; and it
-- is trusted only if some call promoted the shape to trusted.
pub after_calls-Tells :
    (cs : List Call) (shape : String) → Tells cs shape (match_shape (after_calls cs) shape)
unfolding after_calls record_outcome promote
after_calls-Tells [] shape = unfold Tells recorded match_shape in refl
after_calls-Tells (records s d o ∷ cs) shape =
    let known = after_calls-Tells cs s in
    let memo = scored s d o (match_shape (after_calls cs) s) in
    set_memo-Tells cs (records s d o) (after_calls cs) memo shape (shape-scored cs s d o _ known)
      (scored-Tells cs s d o _ known) (after_calls-Tells cs shape)
after_calls-Tells (promotes s to ∷ cs) shape =
    promote_found-Tells cs s to (after_calls cs) (match_shape (after_calls cs) s) shape refl
      (after_calls-Tells cs s) (after_calls-Tells cs shape)
