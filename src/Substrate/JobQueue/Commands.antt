-- ===== src/Substrate/JobQueue/Commands.antt =====
-- The control plane's side of src/substrate/memory-job-queue.ts.
use corellia.Prelude.{ℕ, suc, String, none, some, List, [], ◌∷◌, ◌++◌, not, if◌then◌else◌}
use corellia.Contract.Jobs.{
  CommissionInput, queued, JobRecord, not_found, conflict, JobCommandResult, ok, error,
}
use corellia.Prelude.Text.{concat}
use corellia.Substrate.JobQueue.Patch.{requeue, withdraw}
use corellia.Substrate.JobQueue.Table.{
  Queue, is_queued, is_parked, state_name, get_job, sort_by_created, update,
}

-- `list`
unfoldable pub list : Queue → List JobRecord
list q = sort_by_created q.jobs

module _ (now : ℕ → ℕ) where
  unfoldable pub new_job : CommissionInput → String → ℕ → JobRecord
  new_job input repo t = record {
    id = input.id;
    repo = repo;
    title = input.title;
    input = input;
    state = queued;
    created_at = t;
    updated_at = t;
    worker_id = none;
    affinity_worker_id = none;
    lease_until = none;
    attempts = 0;
    brief = none;
    answer = none;
    detail = none;
  }

  unfoldable pub enqueue : CommissionInput → String → Queue → JobCommandResult × Queue
  unfolding new_job
  enqueue input repo q = elim (get_job input.id q.jobs) [
    | some old ↦ (error conflict (concat ("job " ∷ input.id ∷ " already exists" ∷ [])), q)
    | none ↦
        let job = new_job input repo (now q.tick) in
        (ok job, record q { jobs = q.jobs ++ job ∷ []; tick = suc q.tick })
  ]

  unfoldable pub answer : String → String → Queue → JobCommandResult × Queue
  answer id reply q = elim (get_job id q.jobs) [
    | none ↦ (error not_found (concat ("no job " ∷ id ∷ [])), q)
    | some job ↦
        if not (is_parked job.state)
        then (
          error conflict
              (concat ("job " ∷ id ∷ " is " ∷ state_name job.state ∷ ", not parked" ∷ [])),
          q,
        )
        else let (job', q') = update now (requeue reply) job q in (ok job', q')
  ]

  unfoldable pub cancel : String → Queue → JobCommandResult × Queue
  cancel id q = elim (get_job id q.jobs) [
    | none ↦ (error not_found (concat ("no job " ∷ id ∷ [])), q)
    | some job ↦
        if not (is_queued job.state)
        then (
          error conflict (
              concat
                ("job " ∷ id ∷ " is " ∷ state_name job.state ∷ "; only queued jobs cancel" ∷ [])),
          q,
        )
        else let (job', q') = update now withdraw job q in (ok job', q')
  ]
