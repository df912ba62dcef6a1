-- ===== src/Substrate/JobQueue/Samples.antt =====
-- Small jobs, queues and histories of src/substrate/memory-job-queue.ts.
use corellia.Prelude.{ℕ, String, none, some, List, [], ◌∷◌}
use corellia.Prelude.Int.{pos}
use corellia.Contract.Json.{Json}
use corellia.Contract.Goal.{Budget}
use corellia.Contract.Jobs.{
  CommissionInput, queued, running, parked, JobBrief, JobRecord, ClaimedJob, JobOutcome,
}
use corellia.Substrate.JobQueue.Table.{Queue}
use corellia.Substrate.JobQueue.History.{Op}

abbrev pub clock : ℕ → ℕ
clock n = n

abbrev pub small_budget : Budget
small_budget = record {
  attempts = pos 3;
  tokens = pos 1000;
  tool_calls = pos 10;
  wall_clock_ms = pos 60000;
}

abbrev pub commission_of : String → List String → CommissionInput
commission_of id scope = record {
  id = id;
  title = "a title";
  spec = Json.null;
  scope = scope;
  budget = small_budget;
  intent = none;
  spend_ceiling_usd = none;
  declared_scripts = none;
  declared_captures = none;
  repo_root = none;
}

abbrev pub waiting : String → ℕ → JobRecord
waiting id created = record {
  id = id;
  repo = "app";
  title = "a title";
  input = commission_of id ("src" ∷ []);
  state = queued;
  created_at = created;
  updated_at = created;
  worker_id = none;
  affinity_worker_id = none;
  lease_until = none;
  attempts = 0;
  brief = none;
  answer = none;
  detail = none;
}

abbrev pub leased : String → String → ℕ → JobRecord
leased id worker until = record (waiting id 0) {
  state = running;
  worker_id = some worker;
  lease_until = some until;
  attempts = 1;
}

abbrev pub question : JobBrief
question = record { question = "ship it?"; options = "yes" ∷ "no" ∷ []; deadline = 500 }

abbrev pub asking : JobRecord
asking = record (leased "a" "w" 0) {
  state = parked;
  lease_until = none;
  affinity_worker_id = some "w";
  brief = some question;
}

abbrev pub queue_of : List JobRecord → Queue
queue_of js = record { jobs = js; workers = []; tick = 10 }

abbrev pub ops : List Op
ops =
    Op.register "w" ("app" ∷ []) "host"
    ∷ Op.enqueue (commission_of "a" ("src" ∷ [])) "app"
    ∷ Op.claim "w" ("app" ∷ [])
    ∷ Op.heartbeat "w"
    ∷ Op.park "a" "w" question
    ∷ Op.answer "a" "yes"
    ∷ Op.claim "w" ("app" ∷ [])
    ∷ Op.finish "a" "w" JobOutcome.done none
    ∷ []

abbrev pub two_waiting : Queue
two_waiting = queue_of (waiting "b" 7 ∷ waiting "a" 5 ∷ [])

abbrev pub given : ClaimedJob
given = record {
  job = record (waiting "a" 5) {
    state = running;
    updated_at = 11;
    worker_id = some "w";
    lease_until = some 60010;
    attempts = 1;
  };
  resume = none;
}
