-- ===== src/Substrate/JobQueue/Ticks.antt =====
-- The clock over the calls of src/substrate/memory-job-queue.ts.
use corellia.Prelude.{
  ℕ, suc, ◌≤◌, ◌≡◌, inl, inr, String, Option, List, [], ◌∷◌, Bool, arith, Option-cases,
}
use corellia.Contract.Jobs.{JobRecord, JobBrief, JobOutcome}
use corellia.Substrate.JobQueue.Patch.{give_up, expire}
use corellia.Substrate.JobQueue.Table.{Queue, update, update_each}
use corellia.Substrate.JobQueue.Choice.{exhausted, fail_exhausted, take_job, claim}
use corellia.Substrate.JobQueue.Commands.{enqueue, answer, cancel}
use corellia.Substrate.JobQueue.Links.{
  held, release, extend_lease, heartbeat, expired, register, deregister, park, finish,
  sweep_expired_parks,
}
use corellia.Substrate.JobQueue.History.{Op, apply}

module _ (now : ℕ → ℕ) where
  each_tick :
      (test : JobRecord → Bool) (patch : JobRecord → JobRecord) (n : ℕ) (js : List JobRecord)
      → n ≤ (update_each now test patch n js).1
  unfolding update_each
  each_tick test patch n [] = omega arith
  each_tick test patch n (j ∷ js) =
      let rest = each_tick test patch (suc n) js in
      let same = each_tick test patch n js in ground arith

  tick-claim :
      (worker : String) (repos : List String) (q : Queue)
      → q.tick ≤ (claim now worker repos q).1.tick
  unfolding claim take_job update fail_exhausted
  tick-claim worker repos q =
      let swept = each_tick (exhausted (now q.tick)) give_up (suc q.tick) q.jobs in ground arith

  tick-release : (id : String) (q : Queue) → (release id q).tick ≡ q.tick
  unfolding release
  tick-release id q = ground arith

  tick-park :
      (id worker : String) (b : JobBrief) (q : Queue) → q.tick ≤ (park now id worker b q).tick
  unfolding park update
  tick-park id worker b q = elim (Option-cases (held id worker q)) [
    | inl e ↦ rw (e, park) (omega arith)
    | inr (j, e) ↦ rw (e, park, tick-release) (omega arith)
  ]

  tick-finish :
      (id worker : String) (o : JobOutcome) (d : Option String) (q : Queue)
      → q.tick ≤ (finish now id worker o d q).tick
  unfolding finish update
  tick-finish id worker o d q = elim (Option-cases (held id worker q)) [
    | inl e ↦ rw (e, finish) (omega arith)
    | inr (j, e) ↦ rw (e, finish, tick-release) (omega arith)
  ]

  tick-heartbeat : (id : String) (q : Queue) → q.tick ≤ (heartbeat now id q).tick
  unfolding heartbeat extend_lease update
  tick-heartbeat id q = ground arith

  tick-sweep : (s : ℕ) (q : Queue) → q.tick ≤ (sweep_expired_parks now s q).1.tick
  unfolding sweep_expired_parks
  tick-sweep s q = each_tick (expired s) expire q.tick q.jobs

  -- Every call leaves the clock where it was or later.
  pub tick-apply : (op : Op) (q : Queue) → q.tick ≤ (apply now op q).tick
  unfolding apply register deregister enqueue answer cancel update
  tick-apply (Op.enqueue input repo) q = ground arith
  tick-apply (Op.answer id reply) q = ground arith
  tick-apply (Op.cancel id) q = ground arith
  tick-apply (Op.register id repos host) q = omega arith
  tick-apply (Op.deregister id) q = omega arith
  tick-apply (Op.heartbeat id) q = tick-heartbeat id q
  tick-apply (Op.claim worker repos) q = tick-claim worker repos q
  tick-apply (Op.park id worker brief) q = tick-park id worker brief q
  tick-apply (Op.finish id worker outcome detail) q = tick-finish id worker outcome detail q
  tick-apply (Op.sweep s) q = tick-sweep s q
