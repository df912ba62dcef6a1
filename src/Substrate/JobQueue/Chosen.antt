-- ===== src/Substrate/JobQueue/Chosen.antt =====
-- What is known of a job that `get`, `#held` or the choice in `claim` has found
-- (src/substrate/memory-job-queue.ts).
use corellia.Prelude.{
  ℕ, ◌≡◌, refl, String, Option, none, some, List, Bool, true, false, not, ◌&&◌, arith, In, filter,
  find?-In, find?-true, find?-none, In-filter, In-filter_intro, any-false, any-true, includes,
  str_eq, Bool-cases, Option-cases, str_eq→eq, ◌∙◌, inl, inr, if◌then◌else◌,
}
use corellia.Contract.Jobs.{running, JobRecord, WorkerRecord}
use corellia.Substrate.JobQueue.Table.{Queue, is_running, get_job}
use corellia.Substrate.JobQueue.Choice.{claimable, conflicts, live, candidates, choose}
use corellia.Substrate.JobQueue.Links.{current_job, held}
use corellia.Substrate.JobQueue.Upkeep.{In-sort, In-sort_intro}

pub get_job-In :
    (id : String) (js : List JobRecord) {j : JobRecord} → get_job id js ≡ some j → In j js
unfolding get_job
get_job-In id js h = find?-In _ js h

pub get_job-id :
    (id : String) (js : List JobRecord) {j : JobRecord} → get_job id js ≡ some j → j.id ≡ id
unfolding get_job
get_job-id id js {j} h = str_eq→eq j.id id (find?-true _ js h)

-- A held job is running, and its worker is the one that asks.
pub held_found :
    (id worker : String) (q : Queue) {j : JobRecord}
    → held id worker q ≡ some j
    → (get_job id q.jobs ≡ some j) × (j.state ≡ running) × (j.worker_id ≡ some worker)
unfolding held
held_found id worker q {j} h = go (get_job id q.jobs) refl h
  where
    holds : (k : JobRecord) → Option JobRecord
    holds k =
        if is_running k.state && elim k.worker_id [ none ↦ false | some w ↦ str_eq w worker ]
        then some k
        else none

    owner :
        (k : JobRecord) (w : Option String)
        → k.worker_id ≡ w
        → holds k ≡ some j
        → (some k ≡ some j) × (j.state ≡ running) × (j.worker_id ≡ some worker)
    owner k none e g = ground arith
    owner k (some w) e g = elim (Bool-cases (str_eq w worker)) [
      | inl s ↦ let same = str_eq→eq w worker s in ground arith
      | inr s ↦ ground arith
    ]

    go :
        (o : Option JobRecord)
        → get_job id q.jobs ≡ o
        → elim o [ none ↦ none | some k ↦ holds k ] ≡ some j
        → (get_job id q.jobs ≡ some j) × (j.state ≡ running) × (j.worker_id ≡ some worker)
    go none e g = cc
    go (some k) e g = let (a, b, c) = owner k k.worker_id refl g in (e ∙ a, b, c)

not-eq-true : (b : Bool) → not b ≡ true → b ≡ false
not-eq-true b h = ground arith

not-eq-false : (b : Bool) → not b ≡ false → b ≡ true
not-eq-false b h = ground arith

-- The choice of `claim` stands in the queue, is served and claimable, and meets no live job.
pub record IsChosen (t : ℕ) (worker : String) (repos : List String) (q : Queue) (j : JobRecord)
    : Type 0 where
  pub listed : In j q.jobs
  pub served : includes repos j.repo ≡ true
  pub open_to : claimable t worker q.workers j ≡ true
  pub apart : (r : JobRecord) → In r q.jobs → live t r ≡ true → conflicts r j ≡ false

module _ (t : ℕ) (worker : String) (repos : List String) (q : Queue) where
  pub In-candidates :
      (j : JobRecord)
      → In j (candidates t worker repos q)
      → In j q.jobs × (includes repos j.repo ≡ true) × (claimable t worker q.workers j ≡ true)
  unfolding candidates
  In-candidates j m =
      let (m', c) = In-filter _ _ j (In-sort j _ m) in
      let (m'', s) = In-filter _ q.jobs j m' in (m'', s, c)

  pub In-candidates_intro :
      (j : JobRecord)
      → In j q.jobs
      → includes repos j.repo ≡ true
      → claimable t worker q.workers j ≡ true
      → In j (candidates t worker repos q)
  unfolding candidates
  In-candidates_intro j m s c =
      In-sort_intro j _ (In-filter_intro _ _ j (In-filter_intro _ q.jobs j m s) c)

  pub choose-IsChosen :
      {j : JobRecord} → choose t worker repos q ≡ some j → IsChosen t worker repos q j
  unfolding choose
  choose-IsChosen {j} h =
      let (m, s, c) = In-candidates j (find?-In _ _ h) in
      let clear = find?-true _ (candidates t worker repos q) h in
      record {
        listed = m;
        served = s;
        open_to = c;
        apart = λ r rm rl.
            any-false (λ r. conflicts r j) (filter (live t) q.jobs) r (not-eq-true _ clear)
              (In-filter_intro (live t) q.jobs r rm rl);
      }

  -- Where none is chosen, each job that might be meets a live one.
  pub choose_none :
      (j : JobRecord)
      → choose t worker repos q ≡ none
      → In j q.jobs
      → includes repos j.repo ≡ true
      → claimable t worker q.workers j ≡ true
      → (r : JobRecord) × In r q.jobs × (live t r ≡ true) × (conflicts r j ≡ true)
  unfolding choose
  choose_none j h m s c =
      let met = find?-none _ (candidates t worker repos q) j h (In-candidates_intro j m s c) in
      let (r, rm, rc) =
        any-true (λ r. conflicts r j) (filter (live t) q.jobs) (not-eq-false _ met) in
      let (rm', rl) = In-filter (live t) q.jobs r rm in (r, rm', rl, rc)

pub current_job-In :
    (w : WorkerRecord) (q : Queue) {j : JobRecord} → current_job w q ≡ some j → In j q.jobs
unfolding current_job
current_job-In w q h = elim (Option-cases w.current_job_id) [
  | inl e ↦ absurd (none-some (rw (e, current_job) at h))
  | inr (id, e) ↦ elim (Bool-cases (str_eq id "")) [
    | inl n ↦ absurd (none-some (rw n at (rw (e, current_job) at h)))
    | inr n ↦ get_job-In id q.jobs (rw n at (rw (e, current_job) at h))
  ]
]
  where
    none-some : {A : Type 0} {a : A} → none ≡ some a → ⊥
    none-some x = cc
