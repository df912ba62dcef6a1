-- ===== src/Substrate/JobQueue/Lives.antt =====
-- The lives of the jobs of src/substrate/memory-job-queue.ts over whole histories.
use corellia.Prelude.{
  ℕ, suc, ◌≡◌, sym, ◌∙◌, ◌⊎◌, inl, inr, subst, String, Option, List, [], ◌∷◌, true, arith, In,
  Option-cases, &&-eq-true,
}
use corellia.Contract.Jobs.{JobBrief, JobRecord, WorkerRecord, JobOutcome, is_terminal}
use corellia.Substrate.JobQueue.Patch.{expire}
use corellia.Substrate.JobQueue.Table.{Queue, is_running, is_queued, update}
use corellia.Substrate.JobQueue.Choice.{lapsed, claimable, choose, fail_exhausted, take_job, claim}
use corellia.Substrate.JobQueue.Links.{
  held, expired, register, deregister, park, finish, sweep_expired_parks,
}
use corellia.Substrate.JobQueue.Chosen.{get_job-In, held_found, choose-IsChosen}
use corellia.Substrate.JobQueue.Wellformed.{IsValid}
use corellia.Substrate.JobQueue.Valid.{fail_exhausted-IsValid, apply-IsValid}
use corellia.Substrate.JobQueue.Lifecycle.{
  Evolves, Evolves-refl, Evolves-trans, Evolves-put, Evolves-each, assign-Moves, set_aside-Moves,
  close-Moves, expire-Moves, Lives-terminal,
}
use corellia.Substrate.JobQueue.History.{Op, apply, run}
use corellia.Substrate.JobQueue.Moved.{
  jobs-release, enqueue-Evolves, answer-Evolves, cancel-Evolves, heartbeat-Evolves,
  fail_exhausted-Evolves,
}

module _ (now : ℕ → ℕ) where
  claimable_state :
      (t : ℕ) (worker : String) (ws : List WorkerRecord) (j : JobRecord)
      → claimable t worker ws j ≡ true
      → (is_queued j.state ≡ true) ⊎ (is_running j.state ≡ true)
  unfolding claimable lapsed
  claimable_state t worker ws j h = ground arith

  claim-Evolves :
      (worker : String) (repos : List String) (q : Queue)
      → IsValid q
      → Evolves q.jobs (claim now worker repos q).1.jobs
  unfolding claim take_job update
  claim-Evolves worker repos q v =
      let t = now q.tick in
      let q₀ : Queue = record q { tick = suc q.tick } in
      let q' = fail_exhausted now t q₀ in
      let v' : IsValid q' =
        fail_exhausted-IsValid now t q₀
          (record { jobs_valid = v.jobs_valid; distinct = v.distinct }) in
      let first : Evolves q.jobs q'.jobs = fail_exhausted-Evolves now t q₀ in
      elim (Option-cases (choose t worker repos q')) [
        | inl e ↦ rw (e, claim) first
        | inr (j, e) ↦
            let c = choose-IsChosen t worker repos q' e in
            rw (e, claim)
              (Evolves-trans q.jobs q'.jobs _ first (
                Evolves-put j _ q'.jobs c.listed v'.distinct (
                  assign-Moves now q'.tick j t worker
                    (claimable_state t worker q'.workers j c.open_to))))
      ]

  park-Evolves :
      (id worker : String) (brief : JobBrief) (q : Queue)
      → IsValid q
      → Evolves q.jobs (park now id worker brief q).jobs
  unfolding park update
  park-Evolves id worker brief q v = elim (Option-cases (held id worker q)) [
    | inl e ↦ rw (e, park) (Evolves-refl q.jobs)
    | inr (j, e) ↦
        let (found, state, _) = held_found id worker q e in
        rw (e, park, jobs-release)
          (Evolves-put j _ q.jobs (get_job-In id q.jobs found) v.distinct
            (set_aside-Moves now q.tick j worker brief state))
  ]

  finish-Evolves :
      (id worker : String) (outcome : JobOutcome) (detail : Option String) (q : Queue)
      → IsValid q
      → Evolves q.jobs (finish now id worker outcome detail q).jobs
  unfolding finish update
  finish-Evolves id worker outcome detail q v = elim (Option-cases (held id worker q)) [
    | inl e ↦ rw (e, finish) (Evolves-refl q.jobs)
    | inr (j, e) ↦
        let (found, state, _) = held_found id worker q e in
        rw (e, finish, jobs-release)
          (Evolves-put j _ q.jobs (get_job-In id q.jobs found) v.distinct
            (close-Moves now q.tick j outcome detail state))
  ]

  sweep-Evolves : (t : ℕ) (q : Queue) → Evolves q.jobs (sweep_expired_parks now t q).1.jobs
  unfolding sweep_expired_parks
  sweep-Evolves t q =
      Evolves-each now (expired t) expire (λ m j e. expire-Moves now m j (&&-eq-true _ _ e).0)
        q.tick q.jobs

  -- In one call each job keeps its place and its identity, and follows edges of the diagram.
  pub apply-Evolves : (op : Op) (q : Queue) → IsValid q → Evolves q.jobs (apply now op q).jobs
  unfolding apply
  apply-Evolves (Op.enqueue input repo) q v = enqueue-Evolves now input repo q
  apply-Evolves (Op.answer id reply) q v = answer-Evolves now id reply q v
  apply-Evolves (Op.cancel id) q v = cancel-Evolves now id q v
  apply-Evolves (Op.register id repos host) q v = unfold register in Evolves-refl q.jobs
  apply-Evolves (Op.deregister id) q v = unfold deregister in Evolves-refl q.jobs
  apply-Evolves (Op.heartbeat id) q v = heartbeat-Evolves now id q v
  apply-Evolves (Op.claim worker repos) q v = claim-Evolves worker repos q v
  apply-Evolves (Op.park id worker brief) q v = park-Evolves id worker brief q v
  apply-Evolves (Op.finish id worker outcome detail) q v =
      finish-Evolves id worker outcome detail q v
  apply-Evolves (Op.sweep t) q v = sweep-Evolves t q

  -- From a queue that satisfies the invariant, over any calls each job keeps its place, its id, its
  -- repository, its title, its input and its time of creation, and goes from state to state by
  -- edges of the diagram only, its count of claims growing by one with each claim and never else.
  pub run-Evolves : (ops : List Op) (q : Queue) → IsValid q → Evolves q.jobs (run now ops q).jobs
  unfolding run
  run-Evolves [] q v = Evolves-refl q.jobs
  run-Evolves (op ∷ ops) q v =
      Evolves-trans q.jobs (apply now op q).jobs _ (apply-Evolves op q v)
        (run-Evolves ops (apply now op q) (apply-IsValid now op q v))

  terminal_stays :
      (js ks : List JobRecord) (j : JobRecord)
      → Evolves js ks
      → In j js
      → is_terminal j.state ≡ true
      → In j ks
  terminal_stays [] ks j ev m h = absurd m
  terminal_stays (x ∷ xs) [] j ev m h = absurd ev
  terminal_stays (x ∷ xs) (k ∷ ks) j ev (inl e) h =
      inl
        (e ∙ sym (Lives-terminal ev.0 (subst (λ (y : JobRecord). is_terminal y.state ≡ true) e h)))
  terminal_stays (x ∷ xs) (k ∷ ks) j ev (inr m) h = inr (terminal_stays xs ks j ev.1 m h)

  -- A job in a terminal state, in a queue that satisfies the invariant, is there after any calls,
  -- the same in every field.
  pub terminal_absorbs :
      (ops : List Op) (q : Queue) (j : JobRecord)
      → IsValid q
      → In j q.jobs
      → is_terminal j.state ≡ true
      → In j (run now ops q).jobs
  terminal_absorbs ops q j v m h =
      terminal_stays q.jobs (run now ops q).jobs j (run-Evolves ops q v) m h
