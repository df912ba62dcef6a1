-- ===== src/Engine/SplitValidation/Found.antt =====
-- What the depth-first search of src/engine/split-validation.ts finds.
use corellia.Prelude.{
  ℕ, zero, suc, ◌<◌, ◌≡◌, refl, sym, subst, ◌∙◌, String, Option, none, some, List, [], ◌∷◌, Bool,
  true, false, false≢true, ap, length, includes, In, str_eq, str_eq→eq, Bool-cases, arith, inl, inr,
}
use corellia.Engine.SplitValidation.Graph.{Walk, edge, Walk-snoc, Grounded, ground_at}
use corellia.Engine.SplitValidation.Search.{
  Search, add, delete, mark, unmark, leave, visit_each, visit,
}
use corellia.Engine.SplitValidation.Sets.{
  includes-add, includes-add_self, includes-add_inv, delete-add, Grows, unvisited, unvisited-le,
  unvisited-add, unvisited-le_length,
}

module _ (deps : String → List String) where
  -- A node that was visited and has left the stack has no cycle below it.
  abbrev pub Settled : Search → Type 0
  Settled s =
      (y : String) → includes s.visited y ≡ true → includes s.in_stack y ≡ false → Grounded deps y

  -- The stack is the way that led here.
  abbrev pub Leads : Search → String → Type 0
  Leads s id = (y : String) → includes s.in_stack y ≡ true → Walk deps y id

  -- What a search for cycles below some nodes returns.
  abbrev pub Found : List String → Search → Option (Bool × Search) → Type 0
  Found ids s none = ⊥
  Found ids s (some (true, t)) = (x : String) × Walk deps x x
  Found ids s (some (false, t)) =
      ((y : String) → In y ids → Grounded deps y)
      × Settled t
      × (t.in_stack ≡ s.in_stack)
      × Grows s.visited t.visited

  -- With so much fuel a visit of the node ends, and what it returns is right.
  abbrev pub Visits : List String → ℕ → (String → Search → Option (Bool × Search)) → Type 0
  Visits nodes fuel go =
      (id : String) (s : Search)
      → Settled s
      → Leads s id
      → unvisited nodes s.visited < fuel
      → Found (id ∷ []) s (go id s)

  module _ (nodes : List String) where
    Found-weaken :
        (id : String) (ids : List String) (s t : Search) (r : Option (Bool × Search))
        → Grounded deps id
        → t.in_stack ≡ s.in_stack
        → Grows s.visited t.visited
        → Found ids t r
        → Found (id ∷ ids) s r
    Found-weaken id ids s t none g e w h = h
    Found-weaken id ids s t (some (true, u)) g e w h = h
    Found-weaken id ids s t (some (false, u)) g e w h = (
      λ y m. elim m [ inl q ↦ subst (Grounded deps) (sym q) g | inr k ↦ h.0 y k ],
      h.1,
      h.2 ∙ e,
      λ y k. h.3 y (w y k),
    )

    Found-cons :
        (go : String → Search → Option (Bool × Search)) (id : String) (ids : List String)
        (s : Search) (r : Option (Bool × Search))
        → Found (id ∷ []) s r
        → ((t : Search)
            → Settled t
            → t.in_stack ≡ s.in_stack
            → Grows s.visited t.visited
            → Found ids t (visit_each go ids t))
        → Found (id ∷ ids) s (elim r [
          | none ↦ none
          | some (found, t) ↦ elim found [ true ↦ some (true, t) | false ↦ visit_each go ids t ]
        ])
    Found-cons go id ids s none h k = h
    Found-cons go id ids s (some (true, t)) h k = h
    Found-cons go id ids s (some (false, t)) h k =
        Found-weaken id ids s t (visit_each go ids t) (h.0 id (inl refl)) h.2 h.3 (k t h.1 h.2 h.3)

    visit_each-Found :
        (fuel : ℕ) (go : String → Search → Option (Bool × Search)) (ids : List String) (s : Search)
        → Visits nodes fuel go
        → Settled s
        → ((y : String) → In y ids → Leads s y × (unvisited nodes s.visited < fuel))
        → Found ids s (visit_each go ids s)
    unfolding visit_each
    visit_each-Found fuel go [] s v st l = (λ y m. absurd m, st, refl, λ y k. k)
    visit_each-Found fuel go (id ∷ ids) s v st l =
        Found-cons go id ids s (go id s) (v id s st (l id (inl refl)).0 (l id (inl refl)).1)
          (λ t st' same grows. visit_each-Found fuel go ids t v st' (λ y m. (
            λ z k. (l y (inr m)).0 z (subst (λ xs. includes xs z ≡ true) same k),
            let le = unvisited-le nodes s.visited t.visited grows in
                let below = (l y (inr m)).1 in omega arith,
          )))

    mark-Settled : (id : String) (s : Search) → Settled s → Settled (mark id s)
    unfolding mark
    mark-Settled id s st y v n = elim (Bool-cases (str_eq id y)) [
      | inl e ↦ absurd (
          false≢true (
            sym n
            ∙ subst (λ x. includes (add s.in_stack id) x ≡ true) (str_eq→eq id y e)
                (includes-add_self s.in_stack id)))
      | inr e ↦ elim (Bool-cases (includes s.in_stack y)) [
        | inl k ↦ absurd (false≢true (sym n ∙ includes-add s.in_stack id y k))
        | inr k ↦ st y (includes-add_inv s.visited id y v e) k
      ]
    ]

    mark-Leads :
        (id : String) (s : Search) (d : String) → Leads s id → In d (deps id) → Leads (mark id s) d
    unfolding mark
    mark-Leads id s d l m y k = elim (Bool-cases (str_eq id y)) [
      | inl e ↦ subst (λ x. Walk deps x d) (str_eq→eq id y e) (edge m)
      | inr e ↦ Walk-snoc deps (l y (includes-add_inv s.in_stack id y k e)) m
    ]

    leave-Found :
        (id : String) (s : Search) (r : Option (Bool × Search))
        → includes s.in_stack id ≡ false
        → Found (deps id) (mark id s) r
        → Found (id ∷ []) s (leave id r)
    unfolding leave mark unmark
    leave-Found id s none n h = h
    leave-Found id s (some (true, t)) n h = h
    leave-Found id s (some (false, t)) n h =
        let here : Grounded deps id = ground_at h.0 in
        let back : delete t.in_stack id ≡ s.in_stack =
          ap (λ xs. delete xs id) h.2 ∙ delete-add s.in_stack id n in
        (
          λ y m. elim m [ inl q ↦ subst (Grounded deps) (sym q) here | inr z ↦ absurd z ],
          λ y v k. elim (Bool-cases (str_eq id y)) [
            | inl e ↦ subst (Grounded deps) (str_eq→eq id y e) here
            | inr e ↦ elim (Bool-cases (includes t.in_stack y)) [
              | inr out ↦ h.1 y v out
              | inl on ↦
                  let was : includes s.in_stack y ≡ true =
                    includes-add_inv s.in_stack id y (subst (λ xs. includes xs y ≡ true) h.2 on)
                      e in
                  absurd (false≢true (sym k ∙ subst (λ xs. includes xs y ≡ true) (sym back) was))
            ]
          ],
          back,
          λ y k. h.3 y (includes-add s.visited id y k),
        )

    -- Every node with dependencies is a node of the split.
    module _ (closed : (x d : String) → In d (deps x) → In x nodes) where
      visit-Found : (fuel : ℕ) → Visits nodes fuel (visit deps fuel)
      unfolding visit
      visit-Found zero id s st l h = elim h [ ]
      visit-Found (suc fuel) id s st l h = elim (Bool-cases (includes s.in_stack id)) [
        | inl on ↦ rw on (id, l id on)
        | inr off ↦ elim (Bool-cases (includes s.visited id)) [
          | inl old ↦ rw off (
              rw old (
                λ y m. elim m [
                  | inl q ↦ subst (Grounded deps) (sym q) (st id old off)
                  | inr z ↦ absurd z
                ],
                st,
                refl,
                λ y k. k,
              ))
          | inr new ↦ rw off (
              rw new (
                leave-Found id s (visit_each (visit deps fuel) (deps id) (mark id s)) off (
                  visit_each-Found fuel (visit deps fuel) (deps id) (mark id s) (visit-Found fuel)
                    (mark-Settled id s st)
                    (λ y m. (
                      mark-Leads id s y l m,
                      unfold mark in
                          let fewer = unvisited-add nodes s.visited id (closed id y m) new in
                          omega arith,
                    )))))
        ]
      ]

      -- From nothing visited, with fuel for every node, the visits of some nodes end: a cycle was
      -- found, or none of the nodes has one below it.
      pub visit_all-Found :
          (fuel : ℕ) (ids : List String)
          → length nodes < fuel
          → Found ids
              (record { visited = []; in_stack = [] })
              (visit_each (visit deps fuel) ids (record { visited = []; in_stack = [] }))
      visit_all-Found fuel ids h =
          visit_each-Found fuel (visit deps fuel) ids (record { visited = []; in_stack = [] })
            (visit-Found fuel) (λ y v n. cc)
            (λ y m. (λ z k. cc, let le = unvisited-le_length nodes [] in omega arith))
