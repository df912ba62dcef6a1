-- ===== src/Substrate/JobQueue/Revival.antt =====
-- A heartbeat after the lease has lapsed, in src/substrate/memory-job-queue.ts.
use corellia.Prelude.{
  ℕ, suc, ◌≡◌, ◌≢◌, refl, sym, ◌∙◌, subst, String, some, List, [], ◌∷◌, Bool, true, false, arith,
  str_eq, str_eq_self, Bool-cases, ne→str_eq, str_eq→eq, inl, inr,
}
use corellia.Contract.Jobs.{running, JobRecord, WorkerRecord}
use corellia.Substrate.JobQueue.Patch.{extend}
use corellia.Substrate.JobQueue.Table.{Queue, get_job, put_job, get_worker, touch, update}
use corellia.Substrate.JobQueue.Choice.{lapsed, conflicts, live}
use corellia.Substrate.JobQueue.Links.{held_by, current_job, extend_lease, heartbeat}

get_job-put_job_ne :
    (id : String) (k : JobRecord) (js : List JobRecord)
    → k.id ≢ id
    → get_job id (put_job k js) ≡ get_job id js
unfolding get_job put_job
get_job-put_job_ne id k [] h = refl
get_job-put_job_ne id k (x ∷ xs) h = elim (Bool-cases (str_eq x.id k.id)) [
  | inl e ↦
      let off : str_eq k.id id ≡ false = ne→str_eq k.id id h in
      let off' : str_eq x.id id ≡ false =
        ne→str_eq x.id id (λ q. h (sym (str_eq→eq x.id k.id e) ∙ q)) in
      rw e (rw (off, off'))
  | inr e ↦ elim (Bool-cases (str_eq x.id id)) [
    | inl f ↦ rw e (rw f)
    | inr f ↦ rw e (rw f (get_job-put_job_ne id k xs h))
  ]
]

get_job-put_job_found :
    (id : String) (k j : JobRecord) (js : List JobRecord)
    → k.id ≡ id
    → get_job id js ≡ some j
    → get_job id (put_job k js) ≡ some k
unfolding get_job put_job
get_job-put_job_found id k j [] e h = absurd (ground arith)
get_job-put_job_found id k j (x ∷ xs) e h = elim (Bool-cases (str_eq x.id k.id)) [
  | inl f ↦
      let hit : str_eq k.id id ≡ true = subst (λ i. str_eq k.id i ≡ true) e (str_eq_self k.id) in
      rw f (rw hit)
  | inr f ↦
      let miss : str_eq x.id id ≡ false = subst (λ i. str_eq x.id i ≡ false) e f in
      rw f (rw miss (get_job-put_job_found id k j xs e (rw miss at h)))
]

held_by_owner :
    (worker : String) (j : JobRecord)
    → j.state ≡ running
    → j.worker_id ≡ some worker
    → held_by worker j ≡ true
unfolding held_by
held_by_owner worker j s o = ground (arith, str_eq_self worker)

live_extended :
    (now : ℕ → ℕ) (n t : ℕ) (j : JobRecord)
    → j.state ≡ running
    → live t (touch now n (extend t) j) ≡ true
unfolding live lapsed touch extend
live_extended now n t j s = ground arith

live_not_lapsed : (t : ℕ) (j : JobRecord) → live t j ≡ true → lapsed t j ≡ false
unfolding live
live_not_lapsed t j h = ground arith

-- A worker with a job `a` of a name that is not empty, which it runs under a lapsed lease, and a
-- job `b` that is live, of the same repository and with an overlapping scope: when the worker
-- beats, `a` is live again beside `b`.
pub heartbeat_revives :
    (now : ℕ → ℕ) (worker : String) (q : Queue) (w : WorkerRecord) (a b : JobRecord)
    → get_worker worker q.workers ≡ some w
    → w.current_job_id ≡ some a.id
    → str_eq a.id "" ≡ false
    → get_job a.id q.jobs ≡ some a
    → a.state ≡ running
    → a.worker_id ≡ some worker
    → lapsed (now q.tick) a ≡ true
    → get_job b.id q.jobs ≡ some b
    → live (now q.tick) b ≡ true
    → conflicts b a ≡ true
    → (a' : JobRecord) × (get_job a.id (heartbeat now worker q).jobs ≡ some a')
      × (live (now q.tick) a' ≡ true)
      × (get_job b.id (heartbeat now worker q).jobs ≡ some b)
      × (conflicts b a' ≡ true)
unfolding heartbeat current_job extend_lease update touch extend conflicts
heartbeat_revives now worker q w a b ew cur named ga run own lap gb lb con = (
  renewed,
  rw jobs_after (get_job-put_job_found a.id renewed a q.jobs refl ga),
  live_extended now (suc q.tick) (now q.tick) a run,
  rw jobs_after (get_job-put_job_ne b.id renewed q.jobs other ∙ gb),
  con,
)
  where
    renewed : JobRecord
    renewed = touch now (suc q.tick) (extend (now q.tick)) a

    jobs_after : (heartbeat now worker q).jobs ≡ put_job renewed q.jobs
    jobs_after =
        rw (ew, heartbeat) (rw cur (rw named (rw ga (rw (held_by_owner worker a run own)))))

    other : a.id ≢ b.id
    other e =
        let same : some b ≡ some a = sym gb ∙ subst (λ i. get_job i q.jobs ≡ some a) e ga in
        let b_lapsed : lapsed (now q.tick) b ≡ true = cc same in
        clash (live_not_lapsed (now q.tick) b lb) b_lapsed
      where
        clash : {c : Bool} → c ≡ false → c ≡ true → ⊥
        clash f g = cc
