-- ===== src/Substrate/JobQueue/Choice.antt =====
-- How `claim` of src/substrate/memory-job-queue.ts chooses a job, and what it writes.
use corellia.Prelude.{
  ℕ, suc, ◌-◌, String, Option, none, some, List, Bool, false, not, ◌&&◌, ◌||◌, any, filter, find?,
  includes, ltb, leb, str_eq, if◌then◌else◌,
}
use corellia.Contract.Jobs.{
  JobRecord, WorkerRecord, Resume, ClaimedJob, job_lease_ms, max_job_attempts,
}
use corellia.Listener.ScopeOverlap.{scopes_overlap}
use corellia.Substrate.JobQueue.Patch.{assign, give_up}
use corellia.Substrate.JobQueue.Table.{
  Queue, is_queued, is_running, get_worker, put_worker, sort_by_created, update, update_each,
}

-- `lapsed` of `claim`.
unfoldable pub lapsed : ℕ → JobRecord → Bool
lapsed now j = is_running j.state && elim j.lease_until [ none ↦ false | some l ↦ ltb l now ]

-- Both exhausted and lapsed: such a job fails when the next worker claims.
unfoldable pub exhausted : ℕ → JobRecord → Bool
exhausted now j = lapsed now j && leb max_job_attempts j.attempts

-- `heldElsewhere` of `claim`.
unfoldable pub held_elsewhere : ℕ → String → List WorkerRecord → JobRecord → Bool
held_elsewhere now worker ws j = elim j.affinity_worker_id [
  | none ↦ false
  | some a ↦ if str_eq a worker then false else elim (get_worker a ws) [
    | none ↦ false
    | some holder ↦ leb (now - job_lease_ms) holder.last_seen_at
  ]
]

unfoldable pub claimable : ℕ → String → List WorkerRecord → JobRecord → Bool
claimable now worker ws j =
    (is_queued j.state && not (held_elsewhere now worker ws j)) || lapsed now j

-- Two jobs of one repository whose scopes overlap.
unfoldable pub conflicts : JobRecord → JobRecord → Bool
conflicts r c = str_eq r.repo c.repo && scopes_overlap r.input.scope c.input.scope

unfoldable pub live : ℕ → JobRecord → Bool
live now j = is_running j.state && not (lapsed now j)

unfoldable pub candidates : ℕ → String → List String → Queue → List JobRecord
candidates now worker repos q =
    sort_by_created
      (filter (claimable now worker q.workers) (filter (λ j. includes repos j.repo) q.jobs))

unfoldable pub choose : ℕ → String → List String → Queue → Option JobRecord
choose now worker repos q =
    find? (λ c. not (any (λ r. conflicts r c) (filter (live now) q.jobs)))
      (candidates now worker repos q)

unfoldable pub resume_of : JobRecord → Option Resume
resume_of j = elim j.brief [
  | none ↦ none
  | some b ↦ elim j.answer [
    | none ↦ none
    | some a ↦ some (record { question = b.question; answer = a })
  ]
]

module _ (now : ℕ → ℕ) where
  -- The first loop of `claim`.
  unfoldable pub fail_exhausted : ℕ → Queue → Queue
  fail_exhausted t q =
      let (js, n) = update_each now (exhausted t) give_up q.tick q.jobs in
      record q { jobs = js; tick = n }

  -- What `claim` writes once it has chosen a job.
  unfoldable pub take_job : ℕ → String → JobRecord → Queue → ClaimedJob × Queue
  take_job t worker job q =
      let (job', q') = update now (assign t worker) job q in
      (
        record { job = job'; resume = resume_of job },
        record q' {
          workers = elim (get_worker worker q.workers) [
            | none ↦ q.workers
            | some w ↦
                put_worker (record w { current_job_id = some job.id; last_seen_at = t }) q.workers
          ];
        },
      )

  unfoldable pub claim : String → List String → Queue → Option ClaimedJob × Queue
  unfolding fail_exhausted
  claim worker repos q =
      let t = now q.tick in
      let q' = fail_exhausted t (record q { tick = suc q.tick }) in
      elim (choose t worker repos q') [
        | none ↦ (none, q')
        | some job ↦ let (claimed, q'') = take_job t worker job q' in (some claimed, q'')
      ]
