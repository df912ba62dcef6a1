-- ===== src/Engine/SplitValidation/Graph.antt =====
-- Walks along the dependencies of a split, for src/engine/split-validation.ts.
use corellia.Prelude.{String, List, ◌≡◌, refl, subst, In}

module _ (deps : String → List String) where
  -- A walk of one dependency or more.
  pub data Walk : String → String → Type 0 where
    edge : {a b : String} → In b (deps a) → Walk a b
    via : {a b c : String} → In b (deps a) → Walk b c → Walk a c

  -- No walk from here goes on for ever.
  pub data Grounded : String → Type 0 where
    ground_at : {a : String} → ((b : String) → In b (deps a) → Grounded b) → Grounded a

  pub Walk-snoc : {a b c : String} → Walk a b → In c (deps b) → Walk a c
  Walk-snoc (edge m) n = via m (edge n)
  Walk-snoc (via m w) n = via m (Walk-snoc w n)

  pub Walk-first : {a b : String} → Walk a b → (c : String) × In c (deps a)
  Walk-first (edge {a} {b} m) = (b, m)
  Walk-first (via {a} {b} {c} m w) = (b, m)

  -- A closed walk, read from its second node.
  Walk-turn : {a b : String} → Walk a b → a ≡ b → (c : String) × In c (deps a) × Walk c c
  Walk-turn (edge {a} {b} m) e = (b, m, edge (subst (λ x. In b (deps x)) e m))
  Walk-turn (via {a} {b} m w) e = (b, m, Walk-snoc w (subst (λ x. In b (deps x)) e m))

  -- A node with nothing endless below it is on no cycle.
  pub Grounded-acyclic : {a : String} → Grounded a → Walk a a → ⊥
  Grounded-acyclic (ground_at h) w =
      let (c, m, closed) = Walk-turn w refl in Grounded-acyclic (h c m) closed
