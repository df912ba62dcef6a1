-- ===== src/Substrate/JobQueue/Exclusive.antt =====
-- Whether live jobs of src/substrate/memory-job-queue.ts overlap, over whole histories.
use corellia.Prelude.{
  ℕ, suc, ◌≤◌, ◌≡◌, refl, ◌∙◌, inl, inr, String, some, List, [], ◌∷◌, true, Bool-cases,
  Option-cases,
}
use corellia.Contract.Jobs.{JobRecord, WorkerRecord}
use corellia.Substrate.JobQueue.Patch.{extend, give_up, assign}
use corellia.Substrate.JobQueue.Table.{Queue, get_worker, touch, update}
use corellia.Substrate.JobQueue.Choice.{
  exhausted, conflicts, live, choose, fail_exhausted, take_job, claim,
}
use corellia.Substrate.JobQueue.Links.{
  held_by, current_job, extend_lease, heartbeat, register, deregister,
}
use corellia.Substrate.JobQueue.Chosen.{choose-IsChosen, current_job-In}
use corellia.Substrate.JobQueue.History.{Op, apply, run}
use corellia.Substrate.JobQueue.Apart.{
  IsExclusive, NoneNew, IsExclusive-NoneNew, IsExclusive-later, IsExclusive-put_job,
}
use corellia.Substrate.JobQueue.Idle.{
  each-NoneNew, dead-give_up, enqueue-NoneNew, answer-NoneNew, cancel-NoneNew, park-NoneNew,
  finish-NoneNew, sweep-NoneNew,
}
use corellia.Substrate.JobQueue.Ticks.{tick-apply}

-- A heartbeat comes while the lease of the worker's job holds.
abbrev pub OnTime : ℕ → Queue → Op → Type 0
OnTime t q (Op.heartbeat id) =
    (w : WorkerRecord) (j : JobRecord)
    → get_worker id q.workers ≡ some w
    → current_job w q ≡ some j
    → held_by id j ≡ true
    → live t j ≡ true
OnTime t q _ = Unit

module _ (now : ℕ → ℕ) where
  assigned-conflicts :
      (n t : ℕ) (worker : String) (j y : JobRecord)
      → conflicts y (touch now n (assign t worker) j) ≡ conflicts y j
  unfolding touch assign conflicts
  assigned-conflicts n t worker j y = refl

  extended-conflicts :
      (n t : ℕ) (j y : JobRecord) → conflicts y (touch now n (extend t) j) ≡ conflicts y j
  unfolding touch extend conflicts
  extended-conflicts n t j y = refl

  ids-touched :
      (n t : ℕ) (worker : String) (j : JobRecord)
      → ((touch now n (assign t worker) j).id ≡ j.id) × ((touch now n (extend t) j).id ≡ j.id)
  unfolding touch assign extend
  ids-touched n t worker j = (refl, refl)

  fail_exhausted-NoneNew : (t : ℕ) (q : Queue) → NoneNew t q.jobs (fail_exhausted now t q).jobs
  unfolding fail_exhausted
  fail_exhausted-NoneNew t q =
      each-NoneNew now t (exhausted t) give_up q.tick q.jobs (dead-give_up now t)

  claim-IsExclusive :
      (worker : String) (repos : List String) (q : Queue)
      → IsExclusive (now q.tick) q.jobs
      → IsExclusive (now q.tick) (claim now worker repos q).1.jobs
  unfolding claim take_job update
  claim-IsExclusive worker repos q e =
      let t = now q.tick in
      let q' = fail_exhausted now t (record q { tick = suc q.tick }) in
      let e' : IsExclusive t q'.jobs = swept_first in
      elim (Option-cases (choose t worker repos q')) [
        | inl n ↦ rw (n, claim) e'
        | inr (j, n) ↦
            let chosen = choose-IsChosen t worker repos q' n in
            rw (n, claim)
              (IsExclusive-put_job t j (touch now q'.tick (assign t worker) j) q'.jobs
                (ids-touched q'.tick t worker j).0
                (λ y m l d. assigned-conflicts q'.tick t worker j y ∙ chosen.apart y m l) e')
      ]
    where
      none_new :
          NoneNew
            (now q.tick)
            q.jobs
            (fail_exhausted now (now q.tick) (record q { tick = suc q.tick })).jobs
      none_new = fail_exhausted-NoneNew (now q.tick) (record q { tick = suc q.tick })

      swept_first :
          IsExclusive
            (now q.tick)
            (fail_exhausted now (now q.tick) (record q { tick = suc q.tick })).jobs
      swept_first = IsExclusive-NoneNew (now q.tick) q.jobs _ none_new e

  heartbeat-IsExclusive :
      (t : ℕ) (id : String) (q : Queue)
      → OnTime t q (Op.heartbeat id)
      → IsExclusive t q.jobs
      → IsExclusive t (heartbeat now id q).jobs
  unfolding heartbeat extend_lease update
  heartbeat-IsExclusive t id q timely e = elim (Option-cases (get_worker id q.workers)) [
    | inl n ↦ rw (n, heartbeat) e
    | inr (w, n) ↦ elim (Option-cases (current_job w q)) [
      | inl c ↦ rw (n, heartbeat) (rw (c, extend_lease) e)
      | inr (j, c) ↦ elim (Bool-cases (held_by id j)) [
        | inr h ↦ rw (n, heartbeat) (rw (c, extend_lease) (rw h e))
        | inl h ↦
            let alive = timely w j n c h in
            rw (n, heartbeat)
              (rw (c, extend_lease)
                (rw h (
                  IsExclusive-put_job t j (touch now (suc q.tick) (extend (now q.tick)) j) q.jobs
                    (ids-touched (suc q.tick) (now q.tick) id j).1
                    (λ y m l d.
                      extended-conflicts (suc q.tick) (now q.tick) j y
                      ∙ e y j m (current_job-In w q c) l alive d)
                    e)))
      ]
    ]
  ]

  -- A call at a time when no two live jobs overlap leaves none that do at that time, if a heartbeat
  -- comes only while the lease of the worker's job holds.
  pub apply-IsExclusive :
      (op : Op) (q : Queue)
      → OnTime (now q.tick) q op
      → IsExclusive (now q.tick) q.jobs
      → IsExclusive (now q.tick) (apply now op q).jobs
  unfolding apply register deregister
  apply-IsExclusive (Op.enqueue input repo) q o e =
      IsExclusive-NoneNew (now q.tick) q.jobs _ (enqueue-NoneNew now (now q.tick) input repo q) e
  apply-IsExclusive (Op.answer id reply) q o e =
      IsExclusive-NoneNew (now q.tick) q.jobs _ (answer-NoneNew now (now q.tick) id reply q) e
  apply-IsExclusive (Op.cancel id) q o e =
      IsExclusive-NoneNew (now q.tick) q.jobs _ (cancel-NoneNew now (now q.tick) id q) e
  apply-IsExclusive (Op.register id repos host) q o e = e
  apply-IsExclusive (Op.deregister id) q o e = e
  apply-IsExclusive (Op.heartbeat id) q o e = heartbeat-IsExclusive (now q.tick) id q o e
  apply-IsExclusive (Op.claim worker repos) q o e = claim-IsExclusive worker repos q e
  apply-IsExclusive (Op.park id worker brief) q o e =
      IsExclusive-NoneNew (now q.tick) q.jobs _ (park-NoneNew now (now q.tick) id worker brief q) e
  apply-IsExclusive (Op.finish id worker outcome detail) q o e =
      IsExclusive-NoneNew (now q.tick) q.jobs _
        (finish-NoneNew now (now q.tick) id worker outcome detail q) e
  apply-IsExclusive (Op.sweep s) q o e =
      IsExclusive-NoneNew (now q.tick) q.jobs _ (sweep-NoneNew now (now q.tick) s q) e

  -- Each heartbeat of the history comes on time.
  abbrev pub Timely : List Op → Queue → Type 0
  Timely [] q = Unit
  Timely (op ∷ ops) q = OnTime (now q.tick) q op × Timely ops (apply now op q)

  -- With a clock that never goes back, and heartbeats that come only while the lease of the
  -- worker's job holds, no two live jobs of one repository overlap in scope after any calls, if
  -- none did at first.
  pub run-IsExclusive :
      (ops : List Op) (q : Queue)
      → ((m n : ℕ) → m ≤ n → now m ≤ now n)
      → Timely ops q
      → IsExclusive (now q.tick) q.jobs
      → IsExclusive (now (run now ops q).tick) (run now ops q).jobs
  unfolding run
  run-IsExclusive [] q clock timely e = e
  run-IsExclusive (op ∷ ops) q clock timely e =
      run-IsExclusive ops (apply now op q) clock timely.1 (
        IsExclusive-later (now q.tick) (now (apply now op q).tick) (apply now op q).jobs
          (clock _ _ (tick-apply now op q)) (apply-IsExclusive op q timely.0 e))
