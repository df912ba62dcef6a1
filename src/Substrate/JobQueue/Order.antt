-- ===== src/Substrate/JobQueue/Order.antt =====
-- In which order `claim` of src/substrate/memory-job-queue.ts looks at the jobs.
use corellia.Prelude.{
  ℕ, ◌≤◌, ◌≡◌, inl, inr, String, some, List, [], ◌∷◌, Bool, true, false, arith, any, All, All-In,
  In, filter, find?, includes, leb, leb→le, Bool-cases,
}
use corellia.Contract.Jobs.{JobRecord}
use corellia.Substrate.JobQueue.Table.{Queue, insert_by_created, sort_by_created}
use corellia.Substrate.JobQueue.Choice.{claimable, conflicts, live, candidates, choose}
use corellia.Substrate.JobQueue.Chosen.{In-candidates_intro}

abbrev IsSorted : List JobRecord → Type 0
IsSorted [] = Unit
IsSorted (j ∷ js) = All (λ k. j.created_at ≤ k.created_at) js × IsSorted js

All-insert :
    (n : ℕ) (j : JobRecord) (js : List JobRecord)
    → n ≤ j.created_at
    → All (λ k. n ≤ k.created_at) js
    → All (λ k. n ≤ k.created_at) (insert_by_created j js)
unfolding insert_by_created
All-insert n j [] le h = (le, tt)
All-insert n j (k ∷ ks) le h = elim (Bool-cases (leb j.created_at k.created_at)) [
  | inl e ↦ rw e (le, h)
  | inr e ↦ rw e (h.0, All-insert n j ks le h.1)
]

All-mono :
    (m n : ℕ) (js : List JobRecord)
    → m ≤ n
    → All (λ k. n ≤ k.created_at) js
    → All (λ k. m ≤ k.created_at) js
All-mono m n [] le h = tt
All-mono m n (j ∷ js) le h = (omega arith, All-mono m n js le h.1)

insert-IsSorted :
    (j : JobRecord) (js : List JobRecord) → IsSorted js → IsSorted (insert_by_created j js)
unfolding insert_by_created
insert-IsSorted j [] h = (tt, tt)
insert-IsSorted j (k ∷ ks) h = elim (Bool-cases (leb j.created_at k.created_at)) [
  | inl e ↦
      let le = leb→le j.created_at k.created_at e in
      rw e ((le, All-mono j.created_at k.created_at ks le h.0), h)
  | inr e ↦ rw e (All-insert k.created_at j ks (ground arith) h.0, insert-IsSorted j ks h.1)
]

sort-IsSorted : (js : List JobRecord) → IsSorted (sort_by_created js)
unfolding sort_by_created
sort-IsSorted [] = tt
sort-IsSorted (j ∷ js) = insert-IsSorted j (sort_by_created js) (sort-IsSorted js)

-- The first that passes a test is the oldest that passes it.
find?-oldest :
    (p : JobRecord → Bool) (js : List JobRecord) {j : JobRecord} (k : JobRecord)
    → IsSorted js
    → find? p js ≡ some j
    → In k js
    → p k ≡ true
    → j.created_at ≤ k.created_at
find?-oldest p [] k s h m t = absurd m
find?-oldest p (x ∷ xs) {j} k s h m t = elim (Bool-cases (p x)) [
  | inl e ↦ elim m [
    | inl q ↦ ground arith
    | inr r ↦
        let le : x.created_at ≤ k.created_at =
          All-In (λ k. x.created_at ≤ k.created_at) xs k s.0 r in
        ground arith
  ]
  | inr e ↦ elim m [ inl q ↦ ground arith | inr r ↦ find?-oldest p xs k s.1 (rw e at h) r t ]
]

pub choose-oldest :
    (t : ℕ) (worker : String) (repos : List String) (q : Queue) {j : JobRecord} (k : JobRecord)
    → choose t worker repos q ≡ some j
    → In k q.jobs
    → includes repos k.repo ≡ true
    → claimable t worker q.workers k ≡ true
    → any (λ r. conflicts r k) (filter (live t) q.jobs) ≡ false
    → j.created_at ≤ k.created_at
unfolding choose candidates
choose-oldest t worker repos q k h m s c free =
    find?-oldest _ _ k (sort-IsSorted _) h (In-candidates_intro t worker repos q k m s c) (rw free)
