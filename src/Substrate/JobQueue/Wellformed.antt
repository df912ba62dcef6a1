-- ===== src/Substrate/JobQueue/Wellformed.antt =====
-- The invariant of the queue of src/substrate/memory-job-queue.ts, and the calls that only read or
-- write one job of it.
use corellia.Prelude.{
  ℕ, ◌≡◌, ◌≢◌, refl, ap, inl, inr, String, Option, none, some, List, [], ◌∷◌, ◌++◌, arith, All,
  All-In, All-append, str_eq, Bool-cases, Option-cases, &&-eq-true, str_eq→ne,
}
use corellia.Contract.Jobs.{CommissionInput, JobRecord, WorkerRecord}
use corellia.Substrate.JobQueue.Table.{
  Queue, empty, is_queued, is_parked, get_job, put_job, get_worker, update,
}
use corellia.Substrate.JobQueue.Commands.{new_job, enqueue, answer, cancel}
use corellia.Substrate.JobQueue.Links.{held_by, release, extend_lease, heartbeat}
use corellia.Substrate.JobQueue.Invariant.{
  IsValidJob, requeue-IsValidJob, withdraw-IsValidJob, extend-IsValidJob,
}
use corellia.Substrate.JobQueue.Upkeep.{ids, Distinct, ids-put_job, All-put_job}
use corellia.Substrate.JobQueue.Chosen.{get_job-In, current_job-In}

pub record IsValid (q : Queue) : Type 0 where
  pub jobs_valid : All IsValidJob q.jobs
  pub distinct : Distinct (ids q.jobs)

pub empty-IsValid : IsValid empty
empty-IsValid = record { jobs_valid = tt; distinct = tt }

Distinct-snoc :
    (xs : List String) (y : String) → Distinct xs → All (λ x. x ≢ y) xs → Distinct (xs ++ y ∷ [])
Distinct-snoc [] y d h = (tt, tt)
Distinct-snoc (x ∷ xs) y d h =
    (All-append (λ z. x ≢ z) xs (y ∷ []) d.0 (h.0, tt), Distinct-snoc xs y d.1 h.1)

fresh_ids : (id : String) (js : List JobRecord) → get_job id js ≡ none → All (λ x. x ≢ id) (ids js)
unfolding get_job
fresh_ids id [] h = tt
fresh_ids id (j ∷ js) h = elim (Bool-cases (str_eq j.id id)) [
  | inl e ↦ absurd (ground arith)
  | inr e ↦ (str_eq→ne j.id id e, fresh_ids id js (rw e at h))
]

ids-snoc : (js : List JobRecord) (j : JobRecord) → ids (js ++ j ∷ []) ≡ ids js ++ j.id ∷ []
ids-snoc [] j = refl
ids-snoc (k ∷ ks) j = ap (λ l. k.id ∷ l) (ids-snoc ks j)

module _ (now : ℕ → ℕ) where
  -- A written job that is valid keeps the queue valid.
  pub put-IsValid :
      (j : JobRecord) (q : Queue) (ws : List WorkerRecord) (n : ℕ)
      → IsValid q
      → IsValidJob j
      → IsValid (record { jobs = put_job j q.jobs; workers = ws; tick = n })
  put-IsValid j q ws n v vj = record {
    jobs_valid = All-put_job IsValidJob j q.jobs vj v.jobs_valid;
    distinct = rw (ids-put_job j q.jobs) v.distinct;
  }

  pub release-IsValid : (id : String) (q : Queue) → IsValid q → IsValid (release id q)
  unfolding release
  release-IsValid id q v = elim (Option-cases (get_worker id q.workers)) [
    | inl e ↦ rw (e, release) v
    | inr (w, e) ↦ rw (e, release) (record { jobs_valid = v.jobs_valid; distinct = v.distinct })
  ]

  pub found_valid :
      (id : String) (q : Queue) {j : JobRecord}
      → IsValid q
      → get_job id q.jobs ≡ some j
      → IsValidJob j
  found_valid id q {j} v e = All-In IsValidJob q.jobs j v.jobs_valid (get_job-In id q.jobs e)

  new_job-IsValidJob :
      (input : CommissionInput) (repo : String) (t : ℕ) → IsValidJob (new_job now input repo t)
  unfolding new_job
  new_job-IsValidJob input repo t = ground arith

  pub enqueue-IsValid :
      (input : CommissionInput) (repo : String) (q : Queue)
      → IsValid q
      → IsValid (enqueue now input repo q).1
  unfolding enqueue
  enqueue-IsValid input repo q v = elim (Option-cases (get_job input.id q.jobs)) [
    | inr (j, e) ↦ rw (e, enqueue) v
    | inl e ↦
        let job = new_job now input repo (now q.tick) in
        rw (e, enqueue)
          (record {
            jobs_valid =
                All-append IsValidJob q.jobs (job ∷ []) v.jobs_valid
                  (new_job-IsValidJob input repo (now q.tick), tt);
            distinct =
                rw (ids-snoc q.jobs job)
                  (Distinct-snoc (ids q.jobs) input.id v.distinct (fresh_ids input.id q.jobs e));
          })
  ]

  pub answer-IsValid :
      (id reply : String) (q : Queue) → IsValid q → IsValid (answer now id reply q).1
  unfolding answer update
  answer-IsValid id reply q v = elim (Option-cases (get_job id q.jobs)) [
    | inl e ↦ rw (e, answer) v
    | inr (j, e) ↦ elim (Bool-cases (is_parked j.state)) [
      | inl p ↦
          rw (e, answer)
            (rw p (
              put-IsValid _ q q.workers _ v
                (requeue-IsValidJob now q.tick j (found_valid id q v e) reply p)))
      | inr p ↦ rw (e, answer) (rw p v)
    ]
  ]

  pub cancel-IsValid : (id : String) (q : Queue) → IsValid q → IsValid (cancel now id q).1
  unfolding cancel update
  cancel-IsValid id q v = elim (Option-cases (get_job id q.jobs)) [
    | inl e ↦ rw (e, cancel) v
    | inr (j, e) ↦ elim (Bool-cases (is_queued j.state)) [
      | inl p ↦
          rw (e, cancel)
            (rw p (
              put-IsValid _ q q.workers _ v
                (withdraw-IsValidJob now q.tick j (found_valid id q v e) p)))
      | inr p ↦ rw (e, cancel) (rw p v)
    ]
  ]

  extend_lease-IsValid :
      (t : ℕ) (worker : String) (o : Option JobRecord) (q : Queue)
      → IsValid q
      → ((j : JobRecord) → o ≡ some j → IsValidJob j)
      → IsValid (extend_lease now t worker o q)
  unfolding extend_lease update
  extend_lease-IsValid t worker none q v h = v
  extend_lease-IsValid t worker (some j) q v h = elim (Bool-cases (held_by worker j)) [
    | inl p ↦ rw p (
        put-IsValid _ q q.workers _ v
          (extend-IsValidJob now q.tick j (h j refl) t (&&-eq-true _ _ p).0))
    | inr p ↦ rw p v
  ]

  pub heartbeat-IsValid : (id : String) (q : Queue) → IsValid q → IsValid (heartbeat now id q)
  unfolding heartbeat
  heartbeat-IsValid id q v = elim (Option-cases (get_worker id q.workers)) [
    | inl e ↦ rw (e, heartbeat) (record { jobs_valid = v.jobs_valid; distinct = v.distinct })
    | inr (w, e) ↦
        rw (e, heartbeat)
          (extend_lease-IsValid _ id _ _
            (record { jobs_valid = v.jobs_valid; distinct = v.distinct })
            (λ j found. All-In IsValidJob q.jobs j v.jobs_valid (current_job-In w q found)))
  ]
