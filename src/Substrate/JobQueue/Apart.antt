-- ===== src/Substrate/JobQueue/Apart.antt =====
-- Live jobs of src/substrate/memory-job-queue.ts that overlap: what keeps them apart.
use corellia.Prelude.{
  ℕ, ◌≤◌, ◌≡◌, ◌≢◌, ◌⊎◌, refl, sym, ap, ◌∙◌, subst, inl, inr, List, true, false, ◌&&◌, arith, In,
  All-In, All-of_In, str_eq, str_eq→eq, str_eq_self, Bool-cases, &&-eq-true,
}
use corellia.Contract.Jobs.{JobRecord}
use corellia.Listener.ScopeOverlap.{scopes_overlap}
use corellia.Listener.Symmetric.{scopes_overlap_sym}
use corellia.Substrate.JobQueue.Table.{put_job}
use corellia.Substrate.JobQueue.Choice.{lapsed, conflicts, live}
use corellia.Substrate.JobQueue.Upkeep.{All-put_job}

-- Any two jobs that are live at time `t` are of different repositories or disjoint in scope.
abbrev pub IsExclusive : ℕ → List JobRecord → Type 0
IsExclusive t js =
    (j k : JobRecord)
    → In j js
    → In k js
    → live t j ≡ true
    → live t k ≡ true
    → j.id ≢ k.id
    → conflicts j k ≡ false

-- Every job that is live afterwards was there before, as it is.
abbrev pub NoneNew : ℕ → List JobRecord → List JobRecord → Type 0
NoneNew t js ks = (x : JobRecord) → In x ks → live t x ≡ true → In x js

pub IsExclusive-NoneNew :
    (t : ℕ) (js ks : List JobRecord) → NoneNew t js ks → IsExclusive t js → IsExclusive t ks
IsExclusive-NoneNew t js ks n e j k mj mk lj lk d = e j k (n j mj lj) (n k mk lk) lj lk d

live_earlier : (t t' : ℕ) (x : JobRecord) → t ≤ t' → live t' x ≡ true → live t x ≡ true
unfolding live lapsed
live_earlier t t' x le l = ground arith

pub IsExclusive-later :
    (t t' : ℕ) (js : List JobRecord) → t ≤ t' → IsExclusive t js → IsExclusive t' js
IsExclusive-later t t' js le e j k mj mk lj lk d = e j k mj mk (earlier j lj) (earlier k lk) d
  where
    earlier : (x : JobRecord) → live t' x ≡ true → live t x ≡ true
    earlier x l = live_earlier t t' x le l

pub In-put_job :
    (k : JobRecord) (js : List JobRecord) (x : JobRecord) → In x (put_job k js) → (x ≡ k) ⊎ In x js
In-put_job k js x m =
    All-In (λ y. (y ≡ k) ⊎ In y js) (put_job k js) x
      (All-put_job (λ y. (y ≡ k) ⊎ In y js) k js (inl refl)
        (All-of_In (λ y. (y ≡ k) ⊎ In y js) js (λ y n. inr n)))
      m

conflicts_sym : (j k : JobRecord) → conflicts j k ≡ false → conflicts k j ≡ false
unfolding conflicts
conflicts_sym j k h =
    elim (Bool-cases (str_eq k.repo j.repo && scopes_overlap k.input.scope j.input.scope)) [
      | inr e ↦ e
      | inl e ↦
          let (r, o) = &&-eq-true _ _ e in
          let back = scopes_overlap_sym k.input.scope j.input.scope o in
          let same =
            subst (λ x. str_eq x k.repo ≡ true) (str_eq→eq k.repo j.repo r) (str_eq_self k.repo) in
          absurd (ground arith)
    ]

-- A job written over one of its id, that conflicts as that did, where that kept apart.
pub IsExclusive-put_job :
    (t : ℕ) (j k : JobRecord) (js : List JobRecord)
    → k.id ≡ j.id
    → ((y : JobRecord) → In y js → live t y ≡ true → y.id ≢ j.id → conflicts y k ≡ false)
    → IsExclusive t js
    → IsExclusive t (put_job k js)
IsExclusive-put_job t j k js same apart e x y mx my lx ly d = elim (In-put_job k js x mx) [
  | inl p ↦ elim (In-put_job k js y my) [
    | inl q ↦ absurd (d (ap (λ (z : JobRecord). z.id) (p ∙ sym q)))
    | inr q ↦
        let off = λ (r : y.id ≡ j.id). d (ap (λ (z : JobRecord). z.id) p ∙ same ∙ sym r) in
        subst (λ z. conflicts z y ≡ false) (sym p) (conflicts_sym y k (apart y q ly off))
  ]
  | inr p ↦ elim (In-put_job k js y my) [
    | inl q ↦
        let off = λ (r : x.id ≡ j.id). d (r ∙ sym (ap (λ (z : JobRecord). z.id) q ∙ same)) in
        subst (λ z. conflicts x z ≡ false) (sym q) (apart x p lx off)
    | inr q ↦ e x y p q lx ly d
  ]
]
