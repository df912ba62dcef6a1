-- ===== src/Substrate/JobQueue/Exhausted.antt =====
-- The jobs that `claim` of src/substrate/memory-job-queue.ts may give out, before and after it has
-- failed the exhausted ones.
use corellia.Prelude.{
  ℕ, suc, ◌≡◌, sym, ap, ◌∙◌, ◌⊎◌, inl, inr, String, List, [], ◌∷◌, Bool, true, false, arith, any,
  In, filter, In-filter, any-true, includes, Bool-cases,
}
use corellia.Contract.Jobs.{failed, JobRecord, WorkerRecord}
use corellia.Substrate.JobQueue.Patch.{give_up}
use corellia.Substrate.JobQueue.Table.{Queue, touch, update_each}
use corellia.Substrate.JobQueue.Choice.{
  lapsed, exhausted, claimable, conflicts, live, fail_exhausted,
}
use corellia.Substrate.JobQueue.Chosen.{IsChosen}

-- The jobs a worker may be given at time `t`: of its repositories, and either waiting for it, or
-- running with a lapsed lease and claimed fewer than three times.
pub record IsOpen (t : ℕ) (worker : String) (repos : List String) (q : Queue) (j : JobRecord)
    : Type 0 where
  pub listed : In j q.jobs
  pub served : includes repos j.repo ≡ true
  pub open_to : claimable t worker q.workers j ≡ true
  pub under_cap : exhausted t j ≡ false

-- No job that runs under a valid lease is of the same repository with an overlapping scope.
abbrev pub IsApart : ℕ → Queue → JobRecord → Type 0
IsApart t q j = (r : JobRecord) → In r q.jobs → live t r ≡ true → conflicts r j ≡ false

module _ (now : ℕ → ℕ) (test : JobRecord → Bool) (patch : JobRecord → JobRecord) where
  pub In-update_each :
      (n : ℕ) (js : List JobRecord) (j : JobRecord)
      → In j (update_each now test patch n js).0
      → In j js × (test j ≡ false)
        ⊎ ((k : JobRecord) × (m : ℕ) × (test k ≡ true) × (j ≡ touch now m patch k))
  unfolding update_each
  In-update_each n [] j m = absurd m
  In-update_each n (x ∷ xs) j m = elim (Bool-cases (test x)) [
    | inl e ↦
        elim (let m' : In j (touch now n patch x ∷ (update_each now test patch (suc n) xs).0) =
            rw e at m in
          m') [
            | inl q ↦ inr (x, n, e, q)
            | inr r ↦ elim (In-update_each (suc n) xs j r) [
              | inl (a, b) ↦ inl (inr a, b)
              | inr b ↦ inr b
            ]
          ]
    | inr e ↦ elim (let m' : In j (x ∷ (update_each now test patch n xs).0) = rw e at m in m') [
      | inl q ↦ inl (inl q, ap test q ∙ e)
      | inr r ↦ elim (In-update_each n xs j r) [ inl (a, b) ↦ inl (inr a, b) | inr b ↦ inr b ]
    ]
  ]

  In-update_each_intro :
      (n : ℕ) (js : List JobRecord) (j : JobRecord)
      → In j js
      → test j ≡ false
      → In j (update_each now test patch n js).0
  unfolding update_each
  In-update_each_intro n [] j m h = absurd m
  In-update_each_intro n (x ∷ xs) j (inl q) h =
      let e : test x ≡ false = ap test (sym q) ∙ h in rw e (inl q)
  In-update_each_intro n (x ∷ xs) j (inr m) h = elim (Bool-cases (test x)) [
    | inl e ↦ rw e (inr (In-update_each_intro (suc n) xs j m h))
    | inr e ↦ rw e (inr (In-update_each_intro n xs j m h))
  ]

failed_closed :
    (t : ℕ) (worker : String) (ws : List WorkerRecord) (j : JobRecord)
    → j.state ≡ failed
    → (claimable t worker ws j ≡ false) × (live t j ≡ false)
unfolding claimable lapsed live
failed_closed t worker ws j h = ground arith

exhausted_idle : (t : ℕ) (j : JobRecord) → exhausted t j ≡ true → live t j ≡ false
unfolding exhausted live
exhausted_idle t j h = ground arith

module _ (now : ℕ → ℕ) (worker : String) (repos : List String) (t : ℕ) (q : Queue) where
  -- The exhausted jobs drop out before the choice, and nothing else changes.
  pub IsOpen-of_IsChosen :
      (j : JobRecord)
      → IsChosen t worker repos (fail_exhausted now t q) j
      → IsOpen t worker repos q j × IsApart t q j
  unfolding fail_exhausted touch give_up
  IsOpen-of_IsChosen j c =
      elim (In-update_each now (exhausted t) give_up q.tick q.jobs j c.listed) [
        | inl (m, e) ↦ (
          record { listed = m; served = c.served; open_to = c.open_to; under_cap = e },
          λ r rm rl.
              c.apart r
                (In-update_each_intro now (exhausted t) give_up q.tick q.jobs r rm
                  (not_exhausted r rl))
                rl,
        )
        | inr (k, m, e, p) ↦
            let closed = failed_closed t worker q.workers j (p_state k m p) in
            absurd (false-true (sym closed.0 ∙ c.open_to))
      ]
    where
      false-true : false ≡ true → ⊥
      false-true e = cc

      not_exhausted : (r : JobRecord) → live t r ≡ true → exhausted t r ≡ false
      not_exhausted r l = elim (Bool-cases (exhausted t r)) [
        | inl e ↦ absurd (false-true (sym (exhausted_idle t r e) ∙ l))
        | inr e ↦ e
      ]

      p_state : (k : JobRecord) (m : ℕ) → j ≡ touch now m give_up k → j.state ≡ failed
      p_state k m p = ap (λ (x : JobRecord). x.state) p

  pub IsChosen-of_IsOpen :
      (j : JobRecord)
      → IsOpen t worker repos q j
      → IsApart t q j
      → In j (fail_exhausted now t q).jobs
        × (any (λ r. conflicts r j) (filter (live t) (fail_exhausted now t q).jobs) ≡ false)
  unfolding fail_exhausted touch give_up
  IsChosen-of_IsOpen j o a = (
    In-update_each_intro now (exhausted t) give_up q.tick q.jobs j o.listed o.under_cap,
    elim (Bool-cases (any (λ r. conflicts r j) (filter (live t) (fail_exhausted now t q).jobs))) [
      | inr e ↦ e
      | inl e ↦ absurd (met (any-true (λ r. conflicts r j) _ e))
    ],
  )
    where
      met :
          (r : JobRecord) × In r (filter (live t) (fail_exhausted now t q).jobs)
            × (conflicts r j ≡ true)
          → ⊥
      met (r, m, c) =
          let (rm, rl) = In-filter (live t) (fail_exhausted now t q).jobs r m in
          elim (In-update_each now (exhausted t) give_up q.tick q.jobs r rm) [
            | inl (m', _) ↦ clash (a r m' rl) c
            | inr (k, n, _, p) ↦
                clash (failed_closed t worker q.workers r (ap (λ (x : JobRecord). x.state) p)).1 rl
          ]
        where
          clash : {b : Bool} → b ≡ false → b ≡ true → ⊥
          clash f g = cc
