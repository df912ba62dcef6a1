-- ===== src/Contract/Jobs.antt =====
-- src/contract/jobs.ts and the commission of src/contract/brief.ts. A time is a number of ms.
use corellia.Prelude.{ℕ, String, Option, List, Bool, true, false}
use corellia.Contract.Json.{Json}
use corellia.Contract.Goal.{Budget, Intent}

pub record CommissionInput : Type 0 where
  pub id : String
  pub title : String
  pub spec : Json
  pub scope : List String
  pub budget : Budget
  pub intent : Option Intent
  pub spend_ceiling_usd : Option ℕ
  pub declared_scripts : Option Json
  pub declared_captures : Option Json
  pub repo_root : Option String

pub data JobState : Type 0 where
  queued running parked done failed blocked interrupted cancelled : JobState

-- `TERMINAL_JOB_STATES.includes(state)`
abbrev pub is_terminal : JobState → Bool
is_terminal JobState.queued = false
is_terminal JobState.running = false
is_terminal JobState.parked = false
is_terminal _ = true

pub record JobBrief : Type 0 where
  pub question : String
  pub options : List String
  pub deadline : ℕ

pub record JobRecord : Type 0 where
  pub id : String
  pub repo : String
  pub title : String
  pub input : CommissionInput
  pub state : JobState
  pub created_at : ℕ
  pub updated_at : ℕ
  pub worker_id : Option String
  pub affinity_worker_id : Option String
  pub lease_until : Option ℕ
  pub attempts : ℕ
  pub brief : Option JobBrief
  pub answer : Option String
  pub detail : Option String

pub record WorkerRecord : Type 0 where
  pub id : String
  pub repos : List String
  pub host : String
  pub started_at : ℕ
  pub last_seen_at : ℕ
  pub current_job_id : Option String

pub record Resume : Type 0 where
  pub question : String
  pub answer : String

pub record ClaimedJob : Type 0 where
  pub job : JobRecord
  pub resume : Option Resume

pub data JobOutcome : Type 0 where
  done failed interrupted : JobOutcome

pub data JobCommandError : Type 0 where
  not_found conflict : JobCommandError

pub data JobCommandResult : Type 0 where
  ok : JobRecord → JobCommandResult
  error : JobCommandError → String → JobCommandResult

abbrev pub job_lease_ms : ℕ
job_lease_ms = 60000

abbrev pub max_job_attempts : ℕ
max_job_attempts = 3
