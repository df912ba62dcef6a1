-- ===== src/Substrate/JobQueue/Moved.antt =====
-- The moves of the single calls of src/substrate/memory-job-queue.ts.
use corellia.Prelude.{
  ℕ, ◌≡◌, refl, inl, inr, String, Option, none, some, In, Bool-cases, Option-cases, &&-eq-true,
}
use corellia.Contract.Jobs.{CommissionInput, JobRecord}
use corellia.Substrate.JobQueue.Patch.{give_up}
use corellia.Substrate.JobQueue.Table.{Queue, is_queued, is_parked, get_job, get_worker, update}
use corellia.Substrate.JobQueue.Choice.{lapsed, exhausted, fail_exhausted}
use corellia.Substrate.JobQueue.Commands.{enqueue, answer, cancel}
use corellia.Substrate.JobQueue.Links.{held_by, release, extend_lease, heartbeat}
use corellia.Substrate.JobQueue.Chosen.{get_job-In, current_job-In}
use corellia.Substrate.JobQueue.Wellformed.{IsValid}
use corellia.Substrate.JobQueue.Lifecycle.{
  Evolves, Evolves-refl, Evolves-snoc, Evolves-put, Evolves-each, requeue-Moves, withdraw-Moves,
  extend-Moves, give_up-Moves,
}

pub jobs-release : (id : String) (q : Queue) → (release id q).jobs ≡ q.jobs
unfolding release
jobs-release id q = elim (Option-cases (get_worker id q.workers)) [
  | inl e ↦ rw (e, release)
  | inr (w, e) ↦ rw (e, release)
]

module _ (now : ℕ → ℕ) where
  pub enqueue-Evolves :
      (input : CommissionInput) (repo : String) (q : Queue)
      → Evolves q.jobs (enqueue now input repo q).1.jobs
  unfolding enqueue
  enqueue-Evolves input repo q = elim (Option-cases (get_job input.id q.jobs)) [
    | inr (j, e) ↦ rw (e, enqueue) (Evolves-refl q.jobs)
    | inl e ↦ rw (e, enqueue) (Evolves-snoc q.jobs _)
  ]

  pub answer-Evolves :
      (id reply : String) (q : Queue) → IsValid q → Evolves q.jobs (answer now id reply q).1.jobs
  unfolding answer update
  answer-Evolves id reply q v = elim (Option-cases (get_job id q.jobs)) [
    | inl e ↦ rw (e, answer) (Evolves-refl q.jobs)
    | inr (j, e) ↦ elim (Bool-cases (is_parked j.state)) [
      | inl p ↦
          rw (e, answer)
            (rw p (
              Evolves-put j _ q.jobs (get_job-In id q.jobs e) v.distinct
                (requeue-Moves now q.tick j reply p)))
      | inr p ↦ rw (e, answer) (rw p (Evolves-refl q.jobs))
    ]
  ]

  pub cancel-Evolves :
      (id : String) (q : Queue) → IsValid q → Evolves q.jobs (cancel now id q).1.jobs
  unfolding cancel update
  cancel-Evolves id q v = elim (Option-cases (get_job id q.jobs)) [
    | inl e ↦ rw (e, cancel) (Evolves-refl q.jobs)
    | inr (j, e) ↦ elim (Bool-cases (is_queued j.state)) [
      | inl p ↦
          rw (e, cancel)
            (rw p (
              Evolves-put j _ q.jobs (get_job-In id q.jobs e) v.distinct
                (withdraw-Moves now q.tick j p)))
      | inr p ↦ rw (e, cancel) (rw p (Evolves-refl q.jobs))
    ]
  ]

  extend_lease-Evolves :
      (t : ℕ) (worker : String) (o : Option JobRecord) (q : Queue)
      → IsValid q
      → ((j : JobRecord) → o ≡ some j → In j q.jobs)
      → Evolves q.jobs (extend_lease now t worker o q).jobs
  unfolding extend_lease update
  extend_lease-Evolves t worker none q v h = Evolves-refl q.jobs
  extend_lease-Evolves t worker (some j) q v h = elim (Bool-cases (held_by worker j)) [
    | inl p ↦ rw p (
        Evolves-put j _ q.jobs (h j refl) v.distinct
          (extend-Moves now q.tick j t (&&-eq-true _ _ p).0))
    | inr p ↦ rw p (Evolves-refl q.jobs)
  ]

  pub heartbeat-Evolves :
      (id : String) (q : Queue) → IsValid q → Evolves q.jobs (heartbeat now id q).jobs
  unfolding heartbeat
  heartbeat-Evolves id q v = elim (Option-cases (get_worker id q.workers)) [
    | inl e ↦ rw (e, heartbeat) (Evolves-refl q.jobs)
    | inr (w, e) ↦
        rw (e, heartbeat)
          (extend_lease-Evolves _ id _ _
            (record { jobs_valid = v.jobs_valid; distinct = v.distinct })
            (λ j found. current_job-In w q found))
  ]

  pub fail_exhausted-Evolves : (t : ℕ) (q : Queue) → Evolves q.jobs (fail_exhausted now t q).jobs
  unfolding fail_exhausted exhausted lapsed
  fail_exhausted-Evolves t q =
      Evolves-each now (exhausted t) give_up
        (λ m j e. give_up-Moves now m j (&&-eq-true _ _ (&&-eq-true _ _ e).0).0) q.tick q.jobs
