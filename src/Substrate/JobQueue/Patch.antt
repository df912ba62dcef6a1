-- ===== src/Substrate/JobQueue/Patch.antt =====
-- The patches that src/substrate/memory-job-queue.ts writes over a job, one for each transition.
use corellia.Prelude.{ℕ, ◌+◌, String, Option, none, some, [], ◌∷◌}
use corellia.Prelude.Text.{concat, show}
use corellia.Contract.Jobs.{
  JobState, queued, running, parked, blocked, cancelled, JobBrief, JobRecord, JobOutcome,
  job_lease_ms,
}

abbrev pub state_of : JobOutcome → JobState
state_of JobOutcome.done = JobState.done
state_of JobOutcome.failed = JobState.failed
state_of JobOutcome.interrupted = JobState.interrupted

-- `answer`
unfoldable pub requeue : String → JobRecord → JobRecord
requeue reply j = record j { state = queued; answer = some reply }

-- `cancel`
unfoldable pub withdraw : JobRecord → JobRecord
withdraw j = record j {
  state = cancelled;
  affinity_worker_id = none;
  detail = some "cancelled by the operator";
}

-- `heartbeat`
unfoldable pub extend : ℕ → JobRecord → JobRecord
extend t j = record j { lease_until = some (t + job_lease_ms) }

-- The lapsed jobs of `claim` that were claimed too often.
unfoldable pub give_up : JobRecord → JobRecord
give_up j = record j {
  state = JobState.failed;
  lease_until = none;
  detail = some (concat ("lease lost after " ∷ show j.attempts ∷ " claims" ∷ []));
}

-- The job that `claim` takes.
unfoldable pub assign : ℕ → String → JobRecord → JobRecord
assign t worker j = record j {
  state = running;
  worker_id = some worker;
  affinity_worker_id = none;
  lease_until = some (t + job_lease_ms);
  attempts = j.attempts + 1;
  brief = none;
  answer = none;
}

-- `park`
unfoldable pub set_aside : String → JobBrief → JobRecord → JobRecord
set_aside worker brief j = record j {
  state = parked;
  brief = some brief;
  affinity_worker_id = some worker;
  lease_until = none;
}

-- `finish`
unfoldable pub close : JobOutcome → Option String → JobRecord → JobRecord
close outcome detail j = record j {
  state = state_of outcome;
  affinity_worker_id = none;
  lease_until = none;
  detail = detail;
}

-- `sweepExpiredParks`
unfoldable pub expire : JobRecord → JobRecord
expire j = record j {
  state = blocked;
  affinity_worker_id = none;
  detail = some "brief unanswered past its deadline";
}
