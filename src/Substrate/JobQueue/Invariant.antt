-- ===== src/Substrate/JobQueue/Invariant.antt =====
-- What holds of the jobs of src/substrate/memory-job-queue.ts between two operations.
use corellia.Prelude.{ℕ, ◌≤◌, ◌≡◌, ◌≢◌, String, Option, none, some, true, arith}
use corellia.Contract.Jobs.{queued, running, parked, JobBrief, JobRecord, JobOutcome, is_terminal}
use corellia.Substrate.JobQueue.Patch.{
  requeue, withdraw, extend, give_up, assign, set_aside, close, expire,
}
use corellia.Substrate.JobQueue.Table.{is_running, is_queued, is_parked, touch}

abbrev pub IsSome {ℓ} : {A : Type ℓ} → Option A → Type 0
IsSome none = ⊥
IsSome (some a) = Unit

-- The fields of a job fit its state.
pub record IsValidJob (j : JobRecord) : Type 0 where
  pub leased : j.state ≡ running → IsSome j.lease_until
  pub owned : j.state ≡ running → IsSome j.worker_id
  pub claimed : j.state ≡ running → 1 ≤ j.attempts
  pub unasked : j.state ≡ running → (j.brief ≡ none) × (j.answer ≡ none)
  pub settled : j.state ≡ running → j.affinity_worker_id ≡ none
  pub free : j.state ≢ running → j.lease_until ≡ none
  pub asked : j.state ≡ parked → IsSome j.brief × IsSome j.affinity_worker_id
  pub answered : j.state ≡ queued → IsSome j.brief → IsSome j.answer
  pub resumable : j.state ≡ queued → 1 ≤ j.attempts → IsSome j.brief
  pub unbound : is_terminal j.state ≡ true → j.affinity_worker_id ≡ none

module _ (now : ℕ → ℕ) (n : ℕ) (j : JobRecord) (v : IsValidJob j) where
  pub requeue-IsValidJob :
      (reply : String) → is_parked j.state ≡ true → IsValidJob (touch now n (requeue reply) j)
  unfolding touch requeue
  requeue-IsValidJob reply p = ground arith

  pub withdraw-IsValidJob : is_queued j.state ≡ true → IsValidJob (touch now n withdraw j)
  unfolding touch withdraw
  withdraw-IsValidJob p = ground arith

  pub extend-IsValidJob :
      (t : ℕ) → is_running j.state ≡ true → IsValidJob (touch now n (extend t) j)
  unfolding touch extend
  extend-IsValidJob t p = ground arith

  pub give_up-IsValidJob : is_running j.state ≡ true → IsValidJob (touch now n give_up j)
  unfolding touch give_up
  give_up-IsValidJob p = ground arith

  pub assign-IsValidJob : (t : ℕ) (worker : String) → IsValidJob (touch now n (assign t worker) j)
  unfolding touch assign
  assign-IsValidJob t worker = ground arith

  pub set_aside-IsValidJob :
      (worker : String) (brief : JobBrief) → IsValidJob (touch now n (set_aside worker brief) j)
  unfolding touch set_aside
  set_aside-IsValidJob worker brief = ground arith

  pub close-IsValidJob :
      (outcome : JobOutcome) (detail : Option String)
      → IsValidJob (touch now n (close outcome detail) j)
  unfolding touch close
  close-IsValidJob outcome detail = ground arith

  pub expire-IsValidJob : is_parked j.state ≡ true → IsValidJob (touch now n expire j)
  unfolding touch expire
  expire-IsValidJob p = ground arith
