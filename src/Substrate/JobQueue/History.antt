-- ===== src/Substrate/JobQueue/History.antt =====
-- Histories: any sequence of calls of src/substrate/memory-job-queue.ts, one after the other.
use corellia.Prelude.{ℕ, String, Option, List, [], ◌∷◌}
use corellia.Contract.Jobs.{CommissionInput, JobBrief, JobOutcome}
use corellia.Substrate.JobQueue.Table.{Queue}
use corellia.Substrate.JobQueue.Choice as Choice
use corellia.Substrate.JobQueue.Commands as Commands
use corellia.Substrate.JobQueue.Links as Links

pub data Op : Type 0 where
  enqueue : (input : CommissionInput) (repo : String) → Op
  answer : (id reply : String) → Op
  cancel : (id : String) → Op
  register : (id : String) (repos : List String) (host : String) → Op
  deregister : (id : String) → Op
  heartbeat : (id : String) → Op
  claim : (worker : String) (repos : List String) → Op
  park : (id worker : String) (brief : JobBrief) → Op
  finish : (id worker : String) (outcome : JobOutcome) (detail : Option String) → Op
  sweep : (t : ℕ) → Op

module _ (now : ℕ → ℕ) where
  -- The queue after one call.
  unfoldable pub apply : Op → Queue → Queue
  apply (enqueue input repo) q = (Commands.enqueue now input repo q).1
  apply (answer id reply) q = (Commands.answer now id reply q).1
  apply (cancel id) q = (Commands.cancel now id q).1
  apply (register id repos host) q = Links.register now id repos host q
  apply (deregister id) q = Links.deregister now id q
  apply (heartbeat id) q = Links.heartbeat now id q
  apply (claim worker repos) q = (Choice.claim now worker repos q).1
  apply (park id worker brief) q = Links.park now id worker brief q
  apply (finish id worker outcome detail) q = Links.finish now id worker outcome detail q
  apply (sweep t) q = (Links.sweep_expired_parks now t q).1

  unfoldable pub run : List Op → Queue → Queue
  run [] q = q
  run (op ∷ ops) q = run ops (apply op q)
