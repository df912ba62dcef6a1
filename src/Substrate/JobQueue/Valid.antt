-- ===== src/Substrate/JobQueue/Valid.antt =====
-- The invariant over every history of src/substrate/memory-job-queue.ts.
use corellia.Prelude.{
  ℕ, suc, refl, inl, inr, String, Option, List, [], ◌∷◌, All-In, Option-cases, &&-eq-true,
}
use corellia.Contract.Jobs.{JobBrief, JobOutcome}
use corellia.Substrate.JobQueue.Patch.{give_up, expire}
use corellia.Substrate.JobQueue.Table.{Queue, update}
use corellia.Substrate.JobQueue.Choice.{lapsed, exhausted, choose, fail_exhausted, take_job, claim}
use corellia.Substrate.JobQueue.Links.{
  held, expired, register, deregister, park, finish, sweep_expired_parks,
}
use corellia.Substrate.JobQueue.Invariant.{
  IsValidJob, give_up-IsValidJob, assign-IsValidJob, set_aside-IsValidJob, close-IsValidJob,
  expire-IsValidJob,
}
use corellia.Substrate.JobQueue.Upkeep.{ids-update_each, All-update_each}
use corellia.Substrate.JobQueue.Chosen.{held_found, choose-IsChosen}
use corellia.Substrate.JobQueue.History.{Op, apply, run}
use corellia.Substrate.JobQueue.Wellformed.{
  IsValid, put-IsValid, found_valid, release-IsValid, enqueue-IsValid, answer-IsValid,
  cancel-IsValid, heartbeat-IsValid,
}

module _ (now : ℕ → ℕ) where
  pub fail_exhausted-IsValid : (t : ℕ) (q : Queue) → IsValid q → IsValid (fail_exhausted now t q)
  unfolding fail_exhausted give_up exhausted lapsed
  fail_exhausted-IsValid t q v = record {
    jobs_valid =
        All-update_each now (exhausted t) give_up IsValidJob IsValidJob
          (λ m j vj e. give_up-IsValidJob now m j vj (&&-eq-true _ _ (&&-eq-true _ _ e).0).0)
          (λ j vj e. vj) q.tick q.jobs v.jobs_valid;
    distinct = rw (ids-update_each now (exhausted t) give_up (λ j. refl) q.tick q.jobs) v.distinct;
  }

  claim-IsValid :
      (worker : String) (repos : List String) (q : Queue)
      → IsValid q
      → IsValid (claim now worker repos q).1
  unfolding claim take_job update
  claim-IsValid worker repos q v =
      let t = now q.tick in
      let q' = fail_exhausted now t (record q { tick = suc q.tick }) in
      let v' : IsValid q' =
        fail_exhausted-IsValid t (record q { tick = suc q.tick })
          (record { jobs_valid = v.jobs_valid; distinct = v.distinct }) in
      elim (Option-cases (choose t worker repos q')) [
        | inl e ↦ rw (e, claim) v'
        | inr (j, e) ↦
            rw (e, claim)
              (put-IsValid now _ q' _ _ v' (
                assign-IsValidJob now q'.tick j
                  (All-In IsValidJob q'.jobs j v'.jobs_valid
                    (choose-IsChosen t worker repos q' e).listed)
                  t worker))
      ]

  park-IsValid :
      (id worker : String) (brief : JobBrief) (q : Queue)
      → IsValid q
      → IsValid (park now id worker brief q)
  unfolding park update
  park-IsValid id worker brief q v = elim (Option-cases (held id worker q)) [
    | inl e ↦ rw (e, park) v
    | inr (j, e) ↦
        rw (e, park)
          (release-IsValid now worker _ (
            put-IsValid now _ q q.workers _ v (
              set_aside-IsValidJob now q.tick j
                (found_valid now id q v (held_found id worker q e).0) worker brief)))
  ]

  finish-IsValid :
      (id worker : String) (outcome : JobOutcome) (detail : Option String) (q : Queue)
      → IsValid q
      → IsValid (finish now id worker outcome detail q)
  unfolding finish update
  finish-IsValid id worker outcome detail q v = elim (Option-cases (held id worker q)) [
    | inl e ↦ rw (e, finish) v
    | inr (j, e) ↦
        rw (e, finish)
          (release-IsValid now worker _ (
            put-IsValid now _ q q.workers _ v (
              close-IsValidJob now q.tick j (found_valid now id q v (held_found id worker q e).0)
                outcome detail)))
  ]

  sweep-IsValid : (t : ℕ) (q : Queue) → IsValid q → IsValid (sweep_expired_parks now t q).1
  unfolding sweep_expired_parks expire
  sweep-IsValid t q v = record {
    jobs_valid =
        All-update_each now (expired t) expire IsValidJob IsValidJob
          (λ m j vj e. expire-IsValidJob now m j vj (&&-eq-true _ _ e).0) (λ j vj e. vj) q.tick
          q.jobs v.jobs_valid;
    distinct = rw (ids-update_each now (expired t) expire (λ j. refl) q.tick q.jobs) v.distinct;
  }

  -- Every call keeps the invariant.
  pub apply-IsValid : (op : Op) (q : Queue) → IsValid q → IsValid (apply now op q)
  unfolding apply
  apply-IsValid (Op.enqueue input repo) q v = enqueue-IsValid now input repo q v
  apply-IsValid (Op.answer id reply) q v = answer-IsValid now id reply q v
  apply-IsValid (Op.cancel id) q v = cancel-IsValid now id q v
  apply-IsValid (Op.register id repos host) q v =
      unfold register in record { jobs_valid = v.jobs_valid; distinct = v.distinct }
  apply-IsValid (Op.deregister id) q v =
      unfold deregister in record { jobs_valid = v.jobs_valid; distinct = v.distinct }
  apply-IsValid (Op.heartbeat id) q v = heartbeat-IsValid now id q v
  apply-IsValid (Op.claim worker repos) q v = claim-IsValid worker repos q v
  apply-IsValid (Op.park id worker brief) q v = park-IsValid id worker brief q v
  apply-IsValid (Op.finish id worker outcome detail) q v =
      finish-IsValid id worker outcome detail q v
  apply-IsValid (Op.sweep t) q v = sweep-IsValid t q v

  -- From a queue in which each job's fields fit its state and no two jobs have one id, the same
  -- holds of the queue after any calls at all.
  pub run-IsValid : (ops : List Op) (q : Queue) → IsValid q → IsValid (run now ops q)
  unfolding run
  run-IsValid [] q v = v
  run-IsValid (op ∷ ops) q v = run-IsValid ops (apply now op q) (apply-IsValid op q v)
