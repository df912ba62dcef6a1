-- ===== src/Substrate/JobQueue/Replies.antt =====
-- What the control plane is told by src/substrate/memory-job-queue.ts.
use corellia.Prelude.{ℕ, ◌≡◌, String, arith}
use corellia.Contract.Jobs.{CommissionInput, JobCommandError, JobCommandResult, error}
use corellia.Substrate.JobQueue.Table.{Queue, update}
use corellia.Substrate.JobQueue.Commands.{enqueue, answer, cancel}

-- The three commands of the control plane.
pub data Command : Type 0 where
  commission : (input : CommissionInput) (repo : String) → Command
  respond : (id text : String) → Command
  withdrawal : (id : String) → Command

unfoldable pub command : (ℕ → ℕ) → Command → Queue → JobCommandResult × Queue
command now (commission input repo) q = enqueue now input repo q
command now (respond id text) q = answer now id text q
command now (withdrawal id) q = cancel now id q

module _ (now : ℕ → ℕ) (q : Queue) where
  enqueue_refused :
      (input : CommissionInput) (repo : String) {e : JobCommandError} {m : String}
      → (enqueue now input repo q).0 ≡ error e m
      → (enqueue now input repo q).1 ≡ q
  unfolding enqueue
  enqueue_refused input repo h = ground arith

  answer_refused :
      (id reply : String) {e : JobCommandError} {m : String}
      → (answer now id reply q).0 ≡ error e m
      → (answer now id reply q).1 ≡ q
  unfolding answer update
  answer_refused id reply h = ground arith

  cancel_refused :
      (id : String) {e : JobCommandError} {m : String}
      → (cancel now id q).0 ≡ error e m
      → (cancel now id q).1 ≡ q
  unfolding cancel update
  cancel_refused id h = ground arith

  -- An enqueue, an answer or a cancel that is refused leaves the queue as it was.
  pub command_refused :
      (c : Command) {e : JobCommandError} {m : String}
      → (command now c q).0 ≡ error e m
      → (command now c q).1 ≡ q
  unfolding command
  command_refused (commission input repo) h = enqueue_refused input repo h
  command_refused (respond id text) h = answer_refused id text h
  command_refused (withdrawal id) h = cancel_refused id h
