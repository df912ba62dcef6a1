-- ===== src/Substrate/JobQueue/Examples.antt =====
-- Runs of src/substrate/memory-job-queue.ts on small queues.
use corellia.Prelude.{
  ◌≡◌, refl, sym, ap, ◌∙◌, subst, inl, inr, none, some, [], ◌∷◌, true, false, In,
}
use corellia.Contract.Jobs.{JobState, JobRecord, WorkerRecord}
use corellia.Listener.ScopeOverlap.{prefixes_overlap, pairs_overlap, scopes_overlap}
use corellia.Substrate.JobQueue.Patch.{assign}
use corellia.Substrate.JobQueue.Table.{
  Queue, empty, get_job, put_job, get_worker, insert_by_created, sort_by_created, touch, update,
  update_each,
}
use corellia.Substrate.JobQueue.Choice.{
  lapsed, exhausted, held_elsewhere, claimable, conflicts, live, candidates, choose, resume_of,
  fail_exhausted, take_job, claim,
}
use corellia.Substrate.JobQueue.Commands.{cancel}
use corellia.Substrate.JobQueue.Links.{current_job, heartbeat}
use corellia.Substrate.JobQueue.History.{Op, run}
use corellia.Substrate.JobQueue.Wellformed.{IsValid, empty-IsValid}
use corellia.Substrate.JobQueue.Valid.{run-IsValid}
use corellia.Substrate.JobQueue.Lifecycle.{Evolves}
use corellia.Substrate.JobQueue.Lives.{run-Evolves, terminal_absorbs}
use corellia.Substrate.JobQueue.Exhausted.{IsOpen, IsApart}
use corellia.Substrate.JobQueue.Claim.{IsClaim, claim_takes, claim_none}
use corellia.Substrate.JobQueue.Replies.{withdrawal, command, command_refused}
use corellia.Substrate.JobQueue.Revival.{heartbeat_revives}
use corellia.Substrate.JobQueue.Apart.{IsExclusive}
use corellia.Substrate.JobQueue.Exclusive.{OnTime, run-IsExclusive}
use corellia.Substrate.JobQueue.Samples.{clock, waiting, leased, queue_of, ops, two_waiting, given}

false-true : false ≡ true → ⊥
false-true e = cc

two_waiting-claim : (claim clock "w" ("app" ∷ []) two_waiting).0 ≡ some given
unfolding claim fail_exhausted update_each exhausted lapsed choose candidates sort_by_created
    insert_by_created claimable held_elsewhere live take_job update touch assign resume_of put_job
    get_worker
two_waiting-claim = refl

claim_takes_example :
    (j : JobRecord) × IsClaim 10 "w"
      ("app" ∷ [])
      two_waiting
      given
      (claim clock "w" ("app" ∷ []) two_waiting).1
      j
claim_takes_example = claim_takes clock "w" ("app" ∷ []) two_waiting two_waiting-claim

abbrev behind : Queue
behind = queue_of (leased "a" "v" 60000 ∷ waiting "b" 5 ∷ [])

behind-claim : (claim clock "w" ("app" ∷ []) behind).0 ≡ none
unfolding claim fail_exhausted update_each exhausted lapsed choose candidates sort_by_created
    insert_by_created claimable held_elsewhere live conflicts scopes_overlap pairs_overlap
    prefixes_overlap
behind-claim = refl

b-IsOpen : IsOpen 10 "w" ("app" ∷ []) behind (waiting "b" 5)
unfolding claimable held_elsewhere lapsed exhausted
b-IsOpen = record { listed = inr (inl refl); served = refl; open_to = refl; under_cap = refl }

claim_none_example : ¬ IsApart 10 behind (waiting "b" 5)
claim_none_example = claim_none clock "w" ("app" ∷ []) behind (waiting "b" 5) behind-claim b-IsOpen

run-IsValid_example : IsValid (run clock ops empty)
run-IsValid_example = run-IsValid clock ops empty empty-IsValid

one_waiting-IsValid : IsValid (run clock ops empty)
one_waiting-IsValid = run-IsValid clock ops empty empty-IsValid

run-Evolves_example :
    Evolves (run clock ops empty).jobs (run clock (Op.cancel "a" ∷ ops) (run clock ops empty)).jobs
run-Evolves_example =
    run-Evolves clock (Op.cancel "a" ∷ ops) (run clock ops empty) one_waiting-IsValid

abbrev finished : JobRecord
finished = record (waiting "a" 1) { state = JobState.done; worker_id = some "w"; attempts = 1 }

finished-IsValid : IsValid (queue_of (finished ∷ []))
finished-IsValid = record {
  jobs_valid = (
    record {
      leased = λ e. cc;
      owned = λ e. cc;
      claimed = λ e. cc;
      unasked = λ e. cc;
      settled = λ e. cc;
      free = λ e. refl;
      asked = λ e. cc;
      answered = λ e. cc;
      resumable = λ e. cc;
      unbound = λ e. refl;
    },
    tt,
  );
  distinct = (tt, tt);
}

terminal_absorbs_example : In finished (run clock ops (queue_of (finished ∷ []))).jobs
terminal_absorbs_example =
    terminal_absorbs clock ops (queue_of (finished ∷ [])) finished finished-IsValid (inl refl) refl

command_refused_example : (command clock (withdrawal "a") empty).1 ≡ empty
unfolding command cancel get_job
command_refused_example = command_refused clock empty (withdrawal "a") refl

abbrev worker_w : WorkerRecord
worker_w = record {
  id = "w";
  repos = "app" ∷ [];
  host = "host";
  started_at = 0;
  last_seen_at = 0;
  current_job_id = some "a";
}

abbrev overtaken : Queue
overtaken = record (queue_of (leased "a" "w" 5 ∷ leased "b" "v" 60000 ∷ [])) {
  workers = worker_w ∷ [];
}

overtaken-lapsed : lapsed 10 (leased "a" "w" 5) ≡ true
unfolding lapsed
overtaken-lapsed = refl

overtaken-live : live 10 (leased "b" "v" 60000) ≡ true
unfolding live lapsed
overtaken-live = refl

overtaken-conflicts : conflicts (leased "b" "v" 60000) (leased "a" "w" 5) ≡ true
unfolding conflicts scopes_overlap pairs_overlap prefixes_overlap
overtaken-conflicts = refl

overtaken-found :
    (get_worker "w" overtaken.workers ≡ some worker_w)
    × (get_job "a" overtaken.jobs ≡ some (leased "a" "w" 5))
    × (get_job "b" overtaken.jobs ≡ some (leased "b" "v" 60000))
unfolding get_worker get_job
overtaken-found = (refl, refl, refl)

heartbeat_revives_example :
    (a : JobRecord) × (get_job "a" (heartbeat clock "w" overtaken).jobs ≡ some a)
    × (live 10 a ≡ true)
    × (get_job "b" (heartbeat clock "w" overtaken).jobs ≡ some (leased "b" "v" 60000))
    × (conflicts (leased "b" "v" 60000) a ≡ true)
heartbeat_revives_example =
    heartbeat_revives clock "w" overtaken worker_w (leased "a" "w" 5) (leased "b" "v" 60000)
      overtaken-found.0 refl refl overtaken-found.1 refl refl overtaken-lapsed overtaken-found.2
      overtaken-live overtaken-conflicts

abbrev beating : Queue
beating = record (queue_of (leased "a" "w" 60000 ∷ waiting "b" 5 ∷ [])) { workers = worker_w ∷ [] }

beating-IsExclusive : IsExclusive 10 beating.jobs
unfolding live lapsed
beating-IsExclusive j k (inl p) (inl q) lj lk d =
    absurd (d (ap (λ (x : JobRecord). x.id) (p ∙ sym q)))
beating-IsExclusive j k (inl p) (inr (inl q)) lj lk d =
    absurd (false-true (subst (λ x. live 10 x ≡ true) q lk))
beating-IsExclusive j k (inl p) (inr (inr z)) lj lk d = absurd z
beating-IsExclusive j k (inr (inl p)) mk lj lk d =
    absurd (false-true (subst (λ x. live 10 x ≡ true) p lj))
beating-IsExclusive j k (inr (inr z)) mk lj lk d = absurd z

beating-OnTime : OnTime 10 beating (Op.heartbeat "w")
unfolding get_worker current_job get_job live lapsed
beating-OnTime w j found current held =
    let at_w : worker_w ≡ w = cc found in
    let at_j : some (leased "a" "w" 60000) ≡ some j =
      subst (λ x. current_job x beating ≡ some j) (sym at_w) current in
    let same : leased "a" "w" 60000 ≡ j = cc at_j in subst (λ x. live 10 x ≡ true) same refl

run-IsExclusive_example :
    IsExclusive
      (clock (run clock (Op.heartbeat "w" ∷ Op.claim "v" ("app" ∷ []) ∷ []) beating).tick)
      (run clock (Op.heartbeat "w" ∷ Op.claim "v" ("app" ∷ []) ∷ []) beating).jobs
run-IsExclusive_example =
    run-IsExclusive clock (Op.heartbeat "w" ∷ Op.claim "v" ("app" ∷ []) ∷ []) beating (λ m n h. h)
      (beating-OnTime, (tt, tt)) beating-IsExclusive
