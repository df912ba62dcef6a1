-- ===== src/Substrate/JobQueue/Table.antt =====
-- The state of MemoryJobQueue (src/substrate/memory-job-queue.ts), and its two maps.
-- A Map whose keys are the ids of its values is the list of its values, in insertion order.
-- `now n` is the n-th reading of the clock, and `tick` counts the readings.
use corellia.Prelude.{
  ℕ, suc, String, Option, List, [], ◌∷◌, Bool, true, false, find?, leb, str_eq, if◌then◌else◌,
}
use corellia.Contract.Jobs.{
  JobState, queued, running, parked, blocked, cancelled, JobRecord, WorkerRecord,
}

pub record Queue : Type 0 where
  pub jobs : List JobRecord
  pub workers : List WorkerRecord
  pub tick : ℕ

abbrev pub empty : Queue
empty = record { jobs = []; workers = []; tick = 0 }

abbrev pub is_queued : JobState → Bool
is_queued queued = true
is_queued _ = false

abbrev pub is_running : JobState → Bool
is_running running = true
is_running _ = false

abbrev pub is_parked : JobState → Bool
is_parked parked = true
is_parked _ = false

abbrev pub state_name : JobState → String
state_name queued = "queued"
state_name running = "running"
state_name parked = "parked"
state_name JobState.done = "done"
state_name JobState.failed = "failed"
state_name blocked = "blocked"
state_name JobState.interrupted = "interrupted"
state_name cancelled = "cancelled"

-- `#jobs.get(id)`
unfoldable pub get_job : String → List JobRecord → Option JobRecord
get_job id js = find? (λ j. str_eq j.id id) js

-- The record of that id is written in place.
unfoldable pub put_job : JobRecord → List JobRecord → List JobRecord
put_job j [] = []
put_job j (k ∷ ks) = let rest = put_job j ks in if str_eq k.id j.id then j ∷ ks else k ∷ rest

-- `#workers.get(id)`
unfoldable pub get_worker : String → List WorkerRecord → Option WorkerRecord
get_worker id ws = find? (λ w. str_eq w.id id) ws

-- `#workers.set(w.id, w)`: in place if the key is there, and at the end if not.
unfoldable pub put_worker : WorkerRecord → List WorkerRecord → List WorkerRecord
put_worker w [] = w ∷ []
put_worker w (v ∷ vs) = let rest = put_worker w vs in if str_eq v.id w.id then w ∷ vs else v ∷ rest

-- `[...].sort((a, b) => a.createdAt - b.createdAt)`, which is stable.
unfoldable pub insert_by_created : JobRecord → List JobRecord → List JobRecord
insert_by_created j [] = j ∷ []
insert_by_created j (k ∷ ks) =
    let rest = insert_by_created j ks in
    if leb j.created_at k.created_at then j ∷ k ∷ ks else k ∷ rest

unfoldable pub sort_by_created : List JobRecord → List JobRecord
sort_by_created [] = []
sort_by_created (j ∷ js) = insert_by_created j (sort_by_created js)

module _ (now : ℕ → ℕ) where
  -- `#update`: the patch, and the time of one more reading.
  unfoldable pub touch : ℕ → (JobRecord → JobRecord) → JobRecord → JobRecord
  touch n patch j = record (patch j) { updated_at = now n }

  unfoldable pub update : (JobRecord → JobRecord) → JobRecord → Queue → JobRecord × Queue
  unfolding touch
  update patch j q =
      let j' = touch q.tick patch j in
      (j', record q { jobs = put_job j' q.jobs; tick = suc q.tick })

  -- A loop over the jobs that updates, in place, those that pass the test.
  unfoldable pub update_each :
      (JobRecord → Bool) → (JobRecord → JobRecord) → ℕ → List JobRecord → List JobRecord × ℕ
  unfolding touch
  update_each test patch n [] = ([], n)
  update_each test patch n (j ∷ js) =
      let (js', m) = update_each test patch (if test j then suc n else n) js in
      ((if test j then touch n patch j else j) ∷ js', m)
