-- ===== src/Substrate/JobQueue/Links.antt =====
-- The worker's side of src/substrate/memory-job-queue.ts, but for `claim`.
use corellia.Prelude.{
  ℕ, suc, String, Option, none, some, List, [], ◌∷◌, Bool, false, not, ◌&&◌, filter, leb, str_eq,
  if◌then◌else◌,
}
use corellia.Contract.Jobs.{JobBrief, JobRecord, WorkerRecord, JobOutcome}
use corellia.Substrate.JobQueue.Patch.{extend, set_aside, close, expire}
use corellia.Substrate.JobQueue.Table.{
  Queue, is_running, is_parked, get_job, get_worker, put_worker, update, update_each,
}

-- `job.state === 'running' && job.workerId === workerId`
unfoldable pub held_by : String → JobRecord → Bool
held_by worker job =
    is_running job.state && elim job.worker_id [ none ↦ false | some h ↦ str_eq h worker ]

-- `#held`
unfoldable pub held : String → String → Queue → Option JobRecord
unfolding held_by
held id worker q = elim (get_job id q.jobs) [
  | none ↦ none
  | some job ↦ if held_by worker job then some job else none
]

-- `#release`
unfoldable pub release : String → Queue → Queue
release id q = elim (get_worker id q.workers) [
  | none ↦ q
  | some w ↦ record q { workers = put_worker (record w { current_job_id = none }) q.workers }
]

unfoldable pub expired : ℕ → JobRecord → Bool
expired t j = is_parked j.state && elim j.brief [ none ↦ false | some b ↦ leb b.deadline t ]

-- The records that the sweep moved, as they are after it.
unfoldable pub swept : ℕ → List JobRecord → List JobRecord → List JobRecord
unfolding expired
swept t [] js = []
swept t (j ∷ old) [] = []
swept t (j ∷ old) (j' ∷ js) = let rest = swept t old js in if expired t j then j' ∷ rest else rest

-- `worker.currentJobId ? this.#jobs.get(worker.currentJobId) : undefined`
unfoldable pub current_job : WorkerRecord → Queue → Option JobRecord
current_job w q = elim w.current_job_id [
  | none ↦ none
  | some id ↦ if str_eq id "" then none else get_job id q.jobs
]

module _ (now : ℕ → ℕ) where
  unfoldable pub register : String → List String → String → Queue → Queue
  register id repos host q = record q {
    workers =
        put_worker
          (record {
            id = id;
            repos = repos;
            host = host;
            started_at = now q.tick;
            last_seen_at = now q.tick;
            current_job_id = none;
          })
          q.workers;
    tick = suc q.tick;
  }

  unfoldable pub deregister : String → Queue → Queue
  deregister id q = record q { workers = filter (λ w. not (str_eq w.id id)) q.workers }

  unfoldable pub extend_lease : ℕ → String → Option JobRecord → Queue → Queue
  unfolding held_by
  extend_lease t worker none q = q
  extend_lease t worker (some job) q =
      if held_by worker job then (update now (extend t) job q).1 else q

  unfoldable pub heartbeat : String → Queue → Queue
  unfolding extend_lease current_job
  heartbeat id q = elim (get_worker id q.workers) [
    | none ↦ record q { tick = suc q.tick }
    | some w ↦
        let t = now q.tick in
        let q' = record q {
          workers = put_worker (record w { last_seen_at = t }) q.workers;
          tick = suc q.tick;
        } in
        extend_lease t id (current_job w q) q'
  ]

  unfoldable pub park : String → String → JobBrief → Queue → Queue
  park id worker brief q = elim (held id worker q) [
    | none ↦ q
    | some job ↦ release worker (update now (set_aside worker brief) job q).1
  ]

  unfoldable pub finish : String → String → JobOutcome → Option String → Queue → Queue
  finish id worker outcome detail q = elim (held id worker q) [
    | none ↦ q
    | some job ↦ release worker (update now (close outcome detail) job q).1
  ]

  -- `sweepExpiredParks`: the records moved, and the queue after.
  unfoldable pub sweep_expired_parks : ℕ → Queue → List JobRecord × Queue
  unfolding expired swept
  sweep_expired_parks t q =
      let (js, n) = update_each now (expired t) expire q.tick q.jobs in
      (swept t q.jobs js, record q { jobs = js; tick = n })
