-- ===== src/Substrate/JobQueue/Upkeep.antt =====
-- What writing and sorting the jobs leave as it was.
use corellia.Prelude.{
  ℕ, suc, ◌≡◌, refl, ap, sym, ◌≢◌, inl, inr, String, List, [], ◌∷◌, map, Bool, true, false, All, In,
  str_eq, leb, Bool-cases, str_eq→eq,
}
use corellia.Contract.Jobs.{JobRecord}
use corellia.Substrate.JobQueue.Table.{
  put_job, insert_by_created, sort_by_created, touch, update_each,
}

abbrev pub ids : List JobRecord → List String
ids js = map (λ j. j.id) js

abbrev pub Distinct : List String → Type 0
Distinct [] = Unit
Distinct (x ∷ xs) = All (λ y. x ≢ y) xs × Distinct xs

pub ids-put_job : (j : JobRecord) (js : List JobRecord) → ids (put_job j js) ≡ ids js
unfolding put_job
ids-put_job j [] = refl
ids-put_job j (k ∷ ks) = elim (Bool-cases (str_eq k.id j.id)) [
  | inl e ↦ rw e (ap (λ i. i ∷ ids ks) (sym (str_eq→eq k.id j.id e)))
  | inr e ↦ rw e (ap (λ l. k.id ∷ l) (ids-put_job j ks))
]

pub All-put_job :
    (P : JobRecord → Type 0) (j : JobRecord) (js : List JobRecord)
    → P j
    → All P js
    → All P (put_job j js)
unfolding put_job
All-put_job P j [] p h = tt
All-put_job P j (k ∷ ks) p h = elim (Bool-cases (str_eq k.id j.id)) [
  | inl e ↦ rw e (p, h.1)
  | inr e ↦ rw e (h.0, All-put_job P j ks p h.1)
]

module _ (now : ℕ → ℕ) (test : JobRecord → Bool) (patch : JobRecord → JobRecord) where
  pub ids-update_each :
      ((j : JobRecord) → (patch j).id ≡ j.id)
      → (n : ℕ) (js : List JobRecord) → ids (update_each now test patch n js).0 ≡ ids js
  unfolding update_each
  ids-update_each keeps n [] = refl
  ids-update_each keeps n (j ∷ js) = elim (Bool-cases (test j)) [
    | inl e ↦ rw (e, keeps j) (ap (λ l. j.id ∷ l) (ids-update_each keeps (suc n) js))
    | inr e ↦ rw e (ap (λ l. j.id ∷ l) (ids-update_each keeps n js))
  ]

  pub All-update_each :
      (P Q : JobRecord → Type 0)
      → ((m : ℕ) (j : JobRecord) → P j → test j ≡ true → Q (touch now m patch j))
      → ((j : JobRecord) → P j → test j ≡ false → Q j)
      → (n : ℕ) (js : List JobRecord) → All P js
      → All Q (update_each now test patch n js).0
  unfolding update_each
  All-update_each P Q hit miss n [] h = tt
  All-update_each P Q hit miss n (j ∷ js) h = elim (Bool-cases (test j)) [
    | inl e ↦ rw e (hit n j h.0 e, All-update_each P Q hit miss (suc n) js h.1)
    | inr e ↦ rw e (miss j h.0 e, All-update_each P Q hit miss n js h.1)
  ]

In-insert : (x j : JobRecord) (js : List JobRecord) → In x (insert_by_created j js) → In x (j ∷ js)
unfolding insert_by_created
In-insert x j [] m = m
In-insert x j (k ∷ ks) m = elim (Bool-cases (leb j.created_at k.created_at)) [
  | inl e ↦ rw e at m
  | inr e ↦ elim (let m' : In x (k ∷ insert_by_created j ks) = rw e at m in m') [
    | inl q ↦ inr (inl q)
    | inr r ↦ elim (In-insert x j ks r) [ inl a ↦ inl a | inr b ↦ inr (inr b) ]
  ]
]

pub In-sort : (x : JobRecord) (js : List JobRecord) → In x (sort_by_created js) → In x js
unfolding sort_by_created
In-sort x [] m = m
In-sort x (j ∷ js) m = elim (In-insert x j (sort_by_created js) m) [
  | inl e ↦ inl e
  | inr r ↦ inr (In-sort x js r)
]

In-insert_intro :
    (x j : JobRecord) (js : List JobRecord) → In x (j ∷ js) → In x (insert_by_created j js)
unfolding insert_by_created
In-insert_intro x j [] m = m
In-insert_intro x j (k ∷ ks) m = elim (Bool-cases (leb j.created_at k.created_at)) [
  | inl e ↦ rw e m
  | inr e ↦ rw e (elim m [
    | inl a ↦ inr (In-insert_intro x j ks (inl a))
    | inr b ↦ elim b [ inl q ↦ inl q | inr r ↦ inr (In-insert_intro x j ks (inr r)) ]
  ])
]

pub In-sort_intro : (x : JobRecord) (js : List JobRecord) → In x js → In x (sort_by_created js)
unfolding sort_by_created
In-sort_intro x [] m = m
In-sort_intro x (j ∷ js) m =
    In-insert_intro x j (sort_by_created js)
      (elim m [ inl e ↦ inl e | inr r ↦ inr (In-sort_intro x js r) ])
