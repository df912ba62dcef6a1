-- ===== src/Substrate/JobQueue/Lifecycle.antt =====
-- The life of a job of src/substrate/memory-job-queue.ts, as a diagram of states.
use corellia.Prelude.{
  ℕ, suc, ◌+◌, ◌≡◌, ◌≢◌, refl, sym, ap, ◌∙◌, subst, ◌⊎◌, inl, inr, String, Option, List, [], ◌∷◌,
  ◌++◌, Bool, true, false, arith, All, In, str_eq, str_eq_self, Bool-cases, ne→str_eq,
}
use corellia.Contract.Jobs.{
  CommissionInput, JobState, queued, running, parked, done, failed, blocked, interrupted, cancelled,
  JobBrief, JobRecord, JobOutcome, is_terminal,
}
use corellia.Substrate.JobQueue.Patch.{
  requeue, withdraw, extend, give_up, assign, set_aside, close, expire,
}
use corellia.Substrate.JobQueue.Table.{
  is_queued, is_running, is_parked, put_job, touch, update_each,
}
use corellia.Substrate.JobQueue.Upkeep.{ids, Distinct}

-- An edge from state `s` after `m` claims to state `t` after `n` claims.
pub data Edge (s t : JobState) (m n : ℕ) : Type 0 where
  take : s ≡ queued → t ≡ running → n ≡ m + 1 → Edge s t m n
  retake : s ≡ running → t ≡ running → n ≡ m + 1 → Edge s t m n
  beat : s ≡ running → t ≡ running → n ≡ m → Edge s t m n
  ask : s ≡ running → t ≡ parked → n ≡ m → Edge s t m n
  reply : s ≡ parked → t ≡ queued → n ≡ m → Edge s t m n
  lapse : s ≡ parked → t ≡ blocked → n ≡ m → Edge s t m n
  drop : s ≡ queued → t ≡ cancelled → n ≡ m → Edge s t m n
  succeed : s ≡ running → t ≡ done → n ≡ m → Edge s t m n
  fail : s ≡ running → t ≡ failed → n ≡ m → Edge s t m n
  interrupt : s ≡ running → t ≡ interrupted → n ≡ m → Edge s t m n

abbrev pub Identity : Type 0
Identity = String × String × String × CommissionInput × ℕ

-- What no transition changes.
abbrev pub identity : JobRecord → Identity
identity j = (j.id, j.repo, j.title, j.input, j.created_at)

-- One transition of a job: an edge, and what never changes.
pub record Moves (j k : JobRecord) : Type 0 where
  pub edge : Edge j.state k.state j.attempts k.attempts
  pub same : identity k ≡ identity j

same_id : {j k : JobRecord} → Moves j k → k.id ≡ j.id
same_id m = ap (λ (x : Identity). x.0) m.same

pub data Lives (j : JobRecord) : JobRecord → Type 0 where
  here : Lives j j
  next : {k l : JobRecord} → Lives j k → Moves k l → Lives j l

pub Lives-trans : {j k l : JobRecord} → Lives j k → Lives k l → Lives j l
Lives-trans p here = p
Lives-trans p (next q m) = next (Lives-trans p q) m

-- Each job of the first list stands at the same place in the second, later in its life.
abbrev pub Evolves : List JobRecord → List JobRecord → Type 0
Evolves [] ks = Unit
Evolves (j ∷ js) [] = ⊥
Evolves (j ∷ js) (k ∷ ks) = Lives j k × Evolves js ks

pub Evolves-refl : (js : List JobRecord) → Evolves js js
Evolves-refl [] = tt
Evolves-refl (j ∷ js) = (here, Evolves-refl js)

pub Evolves-trans : (js ks ls : List JobRecord) → Evolves js ks → Evolves ks ls → Evolves js ls
Evolves-trans [] ks ls p q = tt
Evolves-trans (j ∷ js) [] ls p q = absurd p
Evolves-trans (j ∷ js) (k ∷ ks) [] p q = absurd q
Evolves-trans (j ∷ js) (k ∷ ks) (l ∷ ls) p q = (Lives-trans p.0 q.0, Evolves-trans js ks ls p.1 q.1)

pub Evolves-snoc : (js : List JobRecord) (k : JobRecord) → Evolves js (js ++ k ∷ [])
Evolves-snoc [] k = tt
Evolves-snoc (j ∷ js) k = (here, Evolves-snoc js k)

other_id :
    (j : JobRecord) (id : String) (js : List JobRecord)
    → In j js
    → All (λ y. id ≢ y) (ids js)
    → id ≢ j.id
other_id j id [] m h = absurd m
other_id j id (k ∷ ks) (inl e) h = λ q. h.0 (q ∙ ap (λ (x : JobRecord). x.id) e)
other_id j id (k ∷ ks) (inr m) h = other_id j id ks m h.1

pub Evolves-put :
    (j k : JobRecord) (js : List JobRecord)
    → In j js
    → Distinct (ids js)
    → Moves j k
    → Evolves js (put_job k js)
unfolding put_job
Evolves-put j k [] m d mv = tt
Evolves-put j k (x ∷ xs) (inl e) d mv =
    let hit : str_eq x.id k.id ≡ true =
      subst (λ (i : String). str_eq x.id i ≡ true)
        (ap (λ (y : JobRecord). y.id) (sym e) ∙ sym (same_id mv)) (str_eq_self x.id) in
    rw hit (next (subst (λ y. Lives x y) (sym e) here) mv, Evolves-refl xs)
Evolves-put j k (x ∷ xs) (inr m) d mv =
    let miss : str_eq x.id k.id ≡ false =
      ne→str_eq x.id k.id (λ q. other_id j x.id xs m d.0 (q ∙ same_id mv)) in
    rw miss (here, Evolves-put j k xs m d.1 mv)

module _ (now : ℕ → ℕ) where
  pub Evolves-each :
      (test : JobRecord → Bool) (patch : JobRecord → JobRecord)
      → ((m : ℕ) (j : JobRecord) → test j ≡ true → Moves j (touch now m patch j))
      → (n : ℕ) (js : List JobRecord) → Evolves js (update_each now test patch n js).0
  unfolding update_each
  Evolves-each test patch step n [] = tt
  Evolves-each test patch step n (j ∷ js) = elim (Bool-cases (test j)) [
    | inl e ↦ rw e (next here (step n j e), Evolves-each test patch step (suc n) js)
    | inr e ↦ rw e (here, Evolves-each test patch step n js)
  ]

  module _ (n : ℕ) (j : JobRecord) where
    pub requeue-Moves :
        (text : String) → is_parked j.state ≡ true → Moves j (touch now n (requeue text) j)
    unfolding touch requeue
    requeue-Moves text p = record { edge = reply (ground arith) refl refl; same = refl }

    pub withdraw-Moves : is_queued j.state ≡ true → Moves j (touch now n withdraw j)
    unfolding touch withdraw
    withdraw-Moves p = record { edge = drop (ground arith) refl refl; same = refl }

    pub extend-Moves : (t : ℕ) → is_running j.state ≡ true → Moves j (touch now n (extend t) j)
    unfolding touch extend
    extend-Moves t p =
        let s : j.state ≡ running = ground arith in record { edge = beat s s refl; same = refl }

    pub give_up-Moves : is_running j.state ≡ true → Moves j (touch now n give_up j)
    unfolding touch give_up
    give_up-Moves p = record { edge = fail (ground arith) refl refl; same = refl }

    pub assign-Moves :
        (t : ℕ) (worker : String)
        → (is_queued j.state ≡ true) ⊎ (is_running j.state ≡ true)
        → Moves j (touch now n (assign t worker) j)
    unfolding touch assign
    assign-Moves t worker (inl p) = record { edge = take (ground arith) refl refl; same = refl }
    assign-Moves t worker (inr p) = record { edge = retake (ground arith) refl refl; same = refl }

    pub set_aside-Moves :
        (worker : String) (brief : JobBrief)
        → j.state ≡ running
        → Moves j (touch now n (set_aside worker brief) j)
    unfolding touch set_aside
    set_aside-Moves worker brief p = record { edge = ask p refl refl; same = refl }

    pub close-Moves :
        (outcome : JobOutcome) (detail : Option String)
        → j.state ≡ running
        → Moves j (touch now n (close outcome detail) j)
    unfolding touch close
    close-Moves JobOutcome.done detail p = record { edge = succeed p refl refl; same = refl }
    close-Moves JobOutcome.failed detail p = record { edge = fail p refl refl; same = refl }
    close-Moves JobOutcome.interrupted detail p = record {
      edge = interrupt p refl refl;
      same = refl;
    }

    pub expire-Moves : is_parked j.state ≡ true → Moves j (touch now n expire j)
    unfolding touch expire
    expire-Moves p = record { edge = lapse (ground arith) refl refl; same = refl }

-- No edge leaves a terminal state.
pub Lives-terminal : {j k : JobRecord} → Lives j k → is_terminal j.state ≡ true → k ≡ j
Lives-terminal here h = refl
Lives-terminal {j} (next {k} p m) h =
    let same : k ≡ j = Lives-terminal p h in
    absurd (leaves m.edge (subst (λ (x : JobRecord). is_terminal x.state ≡ true) (sym same) h))
  where
    leaves : {s t : JobState} {m n : ℕ} → Edge s t m n → is_terminal s ≡ true → ⊥
    leaves (take a b c) h = ground arith
    leaves (retake a b c) h = ground arith
    leaves (beat a b c) h = ground arith
    leaves (ask a b c) h = ground arith
    leaves (reply a b c) h = ground arith
    leaves (lapse a b c) h = ground arith
    leaves (drop a b c) h = ground arith
    leaves (succeed a b c) h = ground arith
    leaves (fail a b c) h = ground arith
    leaves (interrupt a b c) h = ground arith
