-- ===== src/Eventlog/Conformance/Firsts.antt =====
-- The two maps of src/eventlog/conformance/ordering.ts, which keep where a goal is first gated and
-- first judged.
use corellia.Prelude.{
  ℕ, suc, ◌≤◌, ◌≡◌, refl, sym, ◌∙◌, subst, String, Option, none, some, List, [], ◌∷◌, ◌++◌, Bool,
  true, false, ◌&&◌, arith, any, In, In-append, if◌then◌else◌, str_eq, Bool-cases, Option-cases,
  inl, inr, str_eq→eq, str_eq_self,
}
use corellia.Contract.Events.{deterministic_checked, judge_verdict, EventBody, FactoryEvent}
use corellia.Eventlog.Conformance.Ordering.{Entries, get, set_first, Firsts, note, scan}

abbrev is_det : EventBody → Bool
is_det (deterministic_checked v) = true
is_det _ = false

abbrev is_judge : EventBody → Bool
is_judge (judge_verdict ty v t u) = true
is_judge _ = false

abbrev pub det_of : String → FactoryEvent → Bool
det_of goal e = str_eq e.goal_id goal && is_det e.body

abbrev pub judge_of : String → FactoryEvent → Bool
judge_of goal e = str_eq e.goal_id goal && is_judge e.body

get-append :
    (k j : String) (i : ℕ) (m : Entries)
    → get j (m ++ (k, i) ∷ [])
      ≡ elim (get j m) [ some old ↦ some old | none ↦ if str_eq k j then some i else none ]
unfolding get
get-append k j i [] = refl
get-append k j i (x ∷ m) = elim (Bool-cases (str_eq x.0 j)) [
  | inl e ↦ rw e refl
  | inr e ↦ rw e (get-append k j i m)
]

get-set_first :
    (k j : String) (i : ℕ) (m : Entries)
    → get j (set_first k i m)
      ≡ elim (get j m) [ some old ↦ some old | none ↦ if str_eq k j then some i else none ]
unfolding set_first
get-set_first k j i m = elim (Option-cases (get k m)) [
  | inl e ↦ rw (e, set_first) (get-append k j i m)
  | inr (old, e) ↦
      rw (e, set_first)
        (elim (Option-cases (get j m)) [
          | inr (v, f) ↦ rw f refl
          | inl f ↦ elim (Bool-cases (str_eq k j)) [
            | inl q ↦
                let same = subst (λ x. get x m ≡ some old) (str_eq→eq k j q) e in
                absurd (none-some (sym f ∙ same))
            | inr q ↦ rw (f, q) refl
          ]
        ])
]
  where
    none-some : {n : ℕ} → none ≡ some n → ⊥
    none-some e = cc

-- Where the first event that passes the test stands.
abbrev pub first_at : (FactoryEvent → Bool) → ℕ → List FactoryEvent → Option ℕ
first_at p i [] = none
first_at p i (e ∷ es) = let rest = first_at p (suc i) es in if p e then some i else rest

abbrev pub or_else : Option ℕ → Option ℕ → Option ℕ
or_else (some n) o = some n
or_else none o = o

note-first :
    (goal : String) (i : ℕ) (e : FactoryEvent) (s : Firsts)
    → (get goal (note i e s).det
        ≡ or_else (get goal s.det) (if det_of goal e then some i else none))
      × (get goal (note i e s).judge
          ≡ or_else (get goal s.judge) (if judge_of goal e then some i else none))
unfolding note
note-first goal i e s =
    ground (arith, get-set_first e.goal_id goal i s.det, get-set_first e.goal_id goal i s.judge)

pub scan-first :
    (goal : String) (i : ℕ) (es : List FactoryEvent) (s : Firsts)
    → (get goal (scan i es s).det ≡ or_else (get goal s.det) (first_at (det_of goal) i es))
      × (get goal (scan i es s).judge ≡ or_else (get goal s.judge) (first_at (judge_of goal) i es))
unfolding scan
scan-first goal i [] s = ground arith
scan-first goal i (e ∷ es) s =
    let (a, b) = note-first goal i e s in
    let (c, d) = scan-first goal (suc i) es (note i e s) in ground arith

pub first_at_ge :
    (p : FactoryEvent → Bool) (i n : ℕ) (es : List FactoryEvent) → first_at p i es ≡ some n → i ≤ n
first_at_ge p i n [] h = cc
first_at_ge p i n (e ∷ es) h = ground (arith, first_at_ge p (suc i) n es)

pub any-first_at :
    (p : FactoryEvent → Bool) (i : ℕ) (es : List FactoryEvent)
    → any p es ≡ elim (first_at p i es) [ none ↦ false | some n ↦ true ]
any-first_at p i [] = refl
any-first_at p i (e ∷ es) = ground (arith, any-first_at p (suc i) es)

-- Each entry is the one that its key finds.
abbrev pub IsKeyed : Entries → Type 0
IsKeyed m = (x : String × ℕ) → In x m → get x.0 m ≡ some x.1

set_first-IsKeyed : (k : String) (i : ℕ) (m : Entries) → IsKeyed m → IsKeyed (set_first k i m)
unfolding set_first
set_first-IsKeyed k i m keyed = elim (Option-cases (get k m)) [
  | inr (old, e) ↦ rw (e, set_first) keyed
  | inl e ↦
      rw (e, set_first)
        (λ x y. elim (In-append m ((k, i) ∷ []) x y) [
          | inl l ↦ let found = keyed x l in ground (arith, get-append k x.0 i m)
          | inr (inl q) ↦ rw q (let found = get-append k k i m in ground (arith, str_eq_self k))
          | inr (inr z) ↦ absurd z
        ])
]

note-IsKeyed :
    (i : ℕ) (e : FactoryEvent) (s : Firsts) → IsKeyed s.judge → IsKeyed (note i e s).judge
unfolding note
note-IsKeyed i e s keyed = go e.body
  where
    go : (b : EventBody) → IsKeyed (note i (record e { body = b }) s).judge
    go (judge_verdict ty v t u) = set_first-IsKeyed e.goal_id i s.judge keyed
    go (deterministic_checked v) = keyed
    go _ = keyed

pub scan-IsKeyed :
    (i : ℕ) (es : List FactoryEvent) (s : Firsts) → IsKeyed s.judge → IsKeyed (scan i es s).judge
unfolding scan
scan-IsKeyed i [] s keyed = keyed
scan-IsKeyed i (e ∷ es) s keyed = scan-IsKeyed (suc i) es (note i e s) (note-IsKeyed i e s keyed)

pub get-In : (g : String) (n : ℕ) (m : Entries) → get g m ≡ some n → In (g, n) m
unfolding get
get-In g n [] h = cc
get-In g n (x ∷ m) h = elim (Bool-cases (str_eq x.0 g)) [
  | inl e ↦
      let same : some x.1 ≡ some n = rw (e, get) at h in
      let value : x.1 ≡ n = cc same in
      let key = str_eq→eq x.0 g e in
      inl (subst (λ v. (g, v) ≡ x) value (subst (λ k. (k, x.1) ≡ x) key refl))
  | inr e ↦ inr (get-In g n m (rw (e, get) at h))
]
