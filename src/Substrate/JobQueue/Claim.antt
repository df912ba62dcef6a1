-- ===== src/Substrate/JobQueue/Claim.antt =====
-- What `claim` of src/substrate/memory-job-queue.ts gives out.
use corellia.Prelude.{
  ℕ, suc, ◌+◌, ◌≤◌, ◌≡◌, refl, sym, ◌∙◌, subst, inl, inr, String, none, some, List, [], ◌∷◌, Bool,
  true, false, In, filter, In-filter_intro, any-false, Bool-cases, Option-cases, str_eq,
  str_eq_self,
}
use corellia.Contract.Jobs.{running, JobRecord, ClaimedJob, job_lease_ms}
use corellia.Substrate.JobQueue.Patch.{assign}
use corellia.Substrate.JobQueue.Table.{Queue, get_job, put_job, touch, update}
use corellia.Substrate.JobQueue.Choice.{
  claimable, conflicts, live, choose, resume_of, fail_exhausted, take_job, claim,
}
use corellia.Substrate.JobQueue.Chosen.{choose-IsChosen, choose_none}
use corellia.Substrate.JobQueue.Order.{choose-oldest}
use corellia.Substrate.JobQueue.Exhausted.{IsOpen, IsApart, IsOpen-of_IsChosen, IsChosen-of_IsOpen}

get_job-put_job :
    (j k : JobRecord) (js : List JobRecord)
    → In j js
    → k.id ≡ j.id
    → get_job k.id (put_job k js) ≡ some k
unfolding get_job put_job
get_job-put_job j k [] m e = absurd m
get_job-put_job j k (x ∷ xs) m e = elim (Bool-cases (str_eq x.id k.id)) [
  | inl h ↦ rw h (rw (str_eq_self k.id))
  | inr h ↦ elim m [
    | inl p ↦ absurd (
        false-true (
          sym h
          ∙ subst (λ (y : JobRecord). str_eq y.id k.id ≡ true) p
              (subst (λ i. str_eq j.id i ≡ true) (sym e) (str_eq_self j.id))))
    | inr r ↦ rw h (rw h (get_job-put_job j k xs r e))
  ]
]
  where
    false-true : false ≡ true → ⊥
    false-true q = cc

-- What a claim at time `t` gives out: job `j` as it was, now leased to the worker.
pub record IsClaim (t : ℕ) (worker : String) (repos : List String) (q : Queue) (c : ClaimedJob)
    (q' : Queue) (j : JobRecord) : Type 0 where
  pub open_job : IsOpen t worker repos q j
  pub apart : IsApart t q j
  pub oldest :
      (k : JobRecord) → IsOpen t worker repos q k → IsApart t q k → j.created_at ≤ k.created_at
  pub same_id : c.job.id ≡ j.id
  pub runs : c.job.state ≡ running
  pub owner : c.job.worker_id ≡ some worker
  pub lease : c.job.lease_until ≡ some (t + job_lease_ms)
  pub counted : c.job.attempts ≡ j.attempts + 1
  pub asked : c.resume ≡ resume_of j
  pub stored : get_job c.job.id q'.jobs ≡ some c.job

module _ (now : ℕ → ℕ) (worker : String) (repos : List String) (q : Queue) where
  abbrev swept_first : Queue
  swept_first = fail_exhausted now (now q.tick) (record q { tick = suc q.tick })

  take-IsClaim :
      (j : JobRecord)
      → choose (now q.tick) worker repos swept_first ≡ some j
      → let (c, q') = take_job now (now q.tick) worker j swept_first in
        IsClaim (now q.tick) worker repos q c q' j
  unfolding take_job update touch assign
  take-IsClaim j e =
      let t = now q.tick in
      let chosen = choose-IsChosen t worker repos swept_first e in
      let (o, a) =
        IsOpen-of_IsChosen now worker repos t (record q { tick = suc q.tick }) j chosen in
      record {
        open_job = record {
          listed = o.listed;
          served = o.served;
          open_to = o.open_to;
          under_cap = o.under_cap;
        };
        apart = a;
        oldest = λ k ok ak.
            let (m, free) =
              IsChosen-of_IsOpen now worker repos t (record q { tick = suc q.tick }) k
                (record {
                  listed = ok.listed;
                  served = ok.served;
                  open_to = ok.open_to;
                  under_cap = ok.under_cap;
                })
                ak in
            choose-oldest t worker repos swept_first k e m ok.served (same_workers k ok.open_to)
              free;
        same_id = refl;
        runs = refl;
        owner = refl;
        lease = refl;
        counted = refl;
        asked = refl;
        stored =
            get_job-put_job j (touch now swept_first.tick (assign t worker) j) swept_first.jobs
              chosen.listed refl;
      }
    where
      same_workers :
          (k : JobRecord)
          → claimable (now q.tick) worker q.workers k ≡ true
          → claimable (now q.tick) worker swept_first.workers k ≡ true
      same_workers k h = unfold fail_exhausted in h

  -- A claim that gives a job gives one that was listed, of a repository the worker serves, queued
  -- and not held for another live worker or running with a lapsed lease, and claimed fewer than
  -- three times if so; it overlaps no live job, and no such job is older. It is given running,
  -- owned by the worker, leased for `job_lease_ms`, its count one more, with the question and
  -- answer it waited on; and the queue then holds it as it is given.
  pub claim_takes :
      {c : ClaimedJob}
      → (claim now worker repos q).0 ≡ some c
      → (j : JobRecord) × IsClaim (now q.tick) worker repos q c (claim now worker repos q).1 j
  unfolding claim
  claim_takes {c} h = elim (Option-cases (choose (now q.tick) worker repos swept_first)) [
    | inl e ↦ absurd (none-some (rw (e, claim) at h))
    | inr (j, e) ↦
        let given : some (take_job now (now q.tick) worker j swept_first).0 ≡ some c =
          rw (e, claim) at h in
        let same : (take_job now (now q.tick) worker j swept_first).0 ≡ c = cc given in
        (
          j,
          rw (e, claim)
              (subst
                (λ d.
                  IsClaim (now q.tick) worker repos q d
                    (take_job now (now q.tick) worker j swept_first).1 j)
                same (take-IsClaim j e)),
        )
  ]
    where
      none-some : none ≡ some c → ⊥
      none-some e = cc

  -- After a claim that gives no job, no job that is open to the worker is apart from the live ones.
  pub claim_none :
      (j : JobRecord)
      → (claim now worker repos q).0 ≡ none
      → IsOpen (now q.tick) worker repos q j
      → ¬ IsApart (now q.tick) q j
  unfolding claim
  claim_none j h o a = elim (Option-cases (choose (now q.tick) worker repos swept_first)) [
    | inr (k, e) ↦ some-none (rw (e, claim) at h)
    | inl e ↦
        let (m, free) =
          IsChosen-of_IsOpen now worker repos (now q.tick) (record q { tick = suc q.tick }) j
            (record {
              listed = o.listed;
              served = o.served;
              open_to = o.open_to;
              under_cap = o.under_cap;
            })
            a in
        let (r, rm, rl, rc) =
          choose_none (now q.tick) worker repos swept_first j e m o.served
            (same_workers o.open_to) in
        clash
          (any-false (λ r. conflicts r j) (filter (live (now q.tick)) swept_first.jobs) r free
            (In-filter_intro (live (now q.tick)) swept_first.jobs r rm rl))
          rc
  ]
    where
      some-none : {c : ClaimedJob} → some c ≡ none → ⊥
      some-none e = cc

      clash : {b : Bool} → b ≡ false → b ≡ true → ⊥
      clash f g = cc

      same_workers :
          claimable (now q.tick) worker q.workers j ≡ true
          → claimable (now q.tick) worker swept_first.workers j ≡ true
      same_workers h = unfold fail_exhausted in h
