-- ===== src/Substrate/JobQueue/Idle.antt =====
-- The calls of src/substrate/memory-job-queue.ts that make no job live.
use corellia.Prelude.{
  ℕ, ◌≡◌, refl, sym, ◌∙◌, subst, inl, inr, String, Option, List, Bool, true, false, arith,
  In-append, Bool-cases, Option-cases,
}
use corellia.Contract.Jobs.{JobRecord, JobBrief, JobOutcome, CommissionInput}
use corellia.Substrate.JobQueue.Patch.{requeue, withdraw, give_up, set_aside, close, expire}
use corellia.Substrate.JobQueue.Table.{
  Queue, is_queued, is_parked, get_job, put_job, touch, update, update_each,
}
use corellia.Substrate.JobQueue.Choice.{live}
use corellia.Substrate.JobQueue.Commands.{new_job, enqueue, answer, cancel}
use corellia.Substrate.JobQueue.Links.{held, expired, park, finish, sweep_expired_parks}
use corellia.Substrate.JobQueue.Exhausted.{In-update_each}
use corellia.Substrate.JobQueue.Moved.{jobs-release}
use corellia.Substrate.JobQueue.Apart.{NoneNew, In-put_job}

module _ (now : ℕ → ℕ) (t : ℕ) where
  false-true : false ≡ true → ⊥
  false-true e = cc

  -- A job that is not live, written over another, makes none live.
  pub put-NoneNew :
      (k : JobRecord) (js : List JobRecord) → live t k ≡ false → NoneNew t js (put_job k js)
  put-NoneNew k js dead x m l = elim (In-put_job k js x m) [
    | inl p ↦ absurd (false-true (sym dead ∙ subst (λ z. live t z ≡ true) p l))
    | inr n ↦ n
  ]

  pub each-NoneNew :
      (test : JobRecord → Bool) (patch : JobRecord → JobRecord) (n : ℕ) (js : List JobRecord)
      → ((m : ℕ) (j : JobRecord) → live t (touch now m patch j) ≡ false)
      → NoneNew t js (update_each now test patch n js).0
  each-NoneNew test patch n js dead x m l = elim (In-update_each now test patch n js x m) [
    | inl (k, _) ↦ k
    | inr (k, i, _, p) ↦ absurd (false-true (sym (dead i k) ∙ subst (λ z. live t z ≡ true) p l))
  ]

  dead-requeue :
      (n : ℕ) (reply : String) (j : JobRecord) → live t (touch now n (requeue reply) j) ≡ false
  unfolding live touch requeue
  dead-requeue n reply j = refl

  dead-withdraw : (n : ℕ) (j : JobRecord) → live t (touch now n withdraw j) ≡ false
  unfolding live touch withdraw
  dead-withdraw n j = refl

  pub dead-give_up : (n : ℕ) (j : JobRecord) → live t (touch now n give_up j) ≡ false
  unfolding live touch give_up
  dead-give_up n j = refl

  dead-set_aside :
      (n : ℕ) (worker : String) (b : JobBrief) (j : JobRecord)
      → live t (touch now n (set_aside worker b) j) ≡ false
  unfolding live touch set_aside
  dead-set_aside n worker b j = refl

  dead-close :
      (n : ℕ) (o : JobOutcome) (d : Option String) (j : JobRecord)
      → live t (touch now n (close o d) j) ≡ false
  unfolding live touch close
  dead-close n o d j = ground arith

  dead-expire : (n : ℕ) (j : JobRecord) → live t (touch now n expire j) ≡ false
  unfolding live touch expire
  dead-expire n j = refl

  pub enqueue-NoneNew :
      (input : CommissionInput) (repo : String) (q : Queue)
      → NoneNew t q.jobs (enqueue now input repo q).1.jobs
  unfolding enqueue new_job live
  enqueue-NoneNew input repo q = elim (Option-cases (get_job input.id q.jobs)) [
    | inr (j, e) ↦ rw (e, enqueue) (λ x m l. m)
    | inl e ↦
        rw (e, enqueue)
          (λ x m l. elim (In-append q.jobs _ x m) [
            | inl n ↦ n
            | inr (inl p) ↦ absurd (false-true (subst (λ z. live t z ≡ true) p l))
            | inr (inr z) ↦ absurd z
          ])
  ]

  pub answer-NoneNew :
      (id reply : String) (q : Queue) → NoneNew t q.jobs (answer now id reply q).1.jobs
  unfolding answer update
  answer-NoneNew id reply q = elim (Option-cases (get_job id q.jobs)) [
    | inl e ↦ rw (e, answer) (λ x m l. m)
    | inr (j, e) ↦ elim (Bool-cases (is_parked j.state)) [
      | inl p ↦ rw (e, answer) (rw p (put-NoneNew _ q.jobs (dead-requeue q.tick reply j)))
      | inr p ↦ rw (e, answer) (rw p (λ x m l. m))
    ]
  ]

  pub cancel-NoneNew : (id : String) (q : Queue) → NoneNew t q.jobs (cancel now id q).1.jobs
  unfolding cancel update
  cancel-NoneNew id q = elim (Option-cases (get_job id q.jobs)) [
    | inl e ↦ rw (e, cancel) (λ x m l. m)
    | inr (j, e) ↦ elim (Bool-cases (is_queued j.state)) [
      | inl p ↦ rw (e, cancel) (rw p (put-NoneNew _ q.jobs (dead-withdraw q.tick j)))
      | inr p ↦ rw (e, cancel) (rw p (λ x m l. m))
    ]
  ]

  pub park-NoneNew :
      (id worker : String) (b : JobBrief) (q : Queue)
      → NoneNew t q.jobs (park now id worker b q).jobs
  unfolding park update
  park-NoneNew id worker b q = elim (Option-cases (held id worker q)) [
    | inl e ↦ rw (e, park) (λ x m l. m)
    | inr (j, e) ↦
        rw (e, park, jobs-release) (put-NoneNew _ q.jobs (dead-set_aside q.tick worker b j))
  ]

  pub finish-NoneNew :
      (id worker : String) (o : JobOutcome) (d : Option String) (q : Queue)
      → NoneNew t q.jobs (finish now id worker o d q).jobs
  unfolding finish update
  finish-NoneNew id worker o d q = elim (Option-cases (held id worker q)) [
    | inl e ↦ rw (e, finish) (λ x m l. m)
    | inr (j, e) ↦ rw (e, finish, jobs-release) (put-NoneNew _ q.jobs (dead-close q.tick o d j))
  ]

  pub sweep-NoneNew : (s : ℕ) (q : Queue) → NoneNew t q.jobs (sweep_expired_parks now s q).1.jobs
  unfolding sweep_expired_parks
  sweep-NoneNew s q = each-NoneNew (expired s) expire q.tick q.jobs dead-expire
