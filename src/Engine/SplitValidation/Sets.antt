-- ===== src/Engine/SplitValidation/Sets.antt =====
-- The sets of the depth-first search of src/engine/split-validation.ts, and what it has left.
use corellia.Prelude.{
  ℕ, ◌≤◌, ◌<◌, ◌≡◌, refl, String, List, [], ◌∷◌, true, false, not, filter, includes, In, str_eq,
  str_eq_self, length, Bool-cases, arith, inl, inr,
}
use corellia.Engine.SplitValidation.Search.{add, delete}

pub includes-add :
    (set : List String) (x y : String) → includes set y ≡ true → includes (add set x) y ≡ true
unfolding add
includes-add set x y h = ground arith

pub includes-add_self : (set : List String) (x : String) → includes (add set x) x ≡ true
unfolding add
includes-add_self set x = let self = str_eq_self x in ground arith

pub includes-add_inv :
    (set : List String) (x y : String)
    → includes (add set x) y ≡ true
    → str_eq x y ≡ false
    → includes set y ≡ true
unfolding add
includes-add_inv set x y h n = ground arith

delete-absent : (set : List String) (x : String) → includes set x ≡ false → delete set x ≡ set
unfolding delete
delete-absent [] x h = refl
delete-absent (y ∷ ys) x h = let rest = delete-absent ys x (ground arith) in ground arith

pub delete-add :
    (set : List String) (x : String) → includes set x ≡ false → delete (add set x) x ≡ set
unfolding add
delete-add set x h =
    let self = str_eq_self x in
    let rest = delete-absent set x h in rw h (unfold delete in ground (arith, self, rest))

-- Every member of the one is a member of the other.
abbrev pub Grows : List String → List String → Type 0
Grows xs ys = (y : String) → includes xs y ≡ true → includes ys y ≡ true

-- The nodes that are not visited.
abbrev pub unvisited : List String → List String → ℕ
unvisited nodes visited = length (filter (λ n. not (includes visited n)) nodes)

pub unvisited-le :
    (nodes xs ys : List String) → Grows xs ys → unvisited nodes ys ≤ unvisited nodes xs
unvisited-le [] xs ys g = omega arith
unvisited-le (n ∷ ns) xs ys g =
    let rest = unvisited-le ns xs ys g in
    let here = g n in
    elim (Bool-cases (includes xs n)) [
      | inl e ↦ rw e (rw (g n e) rest)
      | inr e ↦ rw e (ground arith)
    ]

pub unvisited-add :
    (nodes xs : List String) (x : String)
    → In x nodes
    → includes xs x ≡ false
    → unvisited nodes (add xs x) < unvisited nodes xs
unvisited-add [] xs x m h = absurd m
unvisited-add (n ∷ ns) xs x (inl e) h =
    let rest = unvisited-le ns xs (add xs x) (includes-add xs x) in
    rw (← e) (rw h (rw (includes-add_self xs x) (omega (arith, rest))))
unvisited-add (n ∷ ns) xs x (inr m) h =
    let rest = unvisited-add ns xs x m h in
    elim (Bool-cases (includes xs n)) [
      | inl e ↦ rw e (rw (includes-add xs x n e) rest)
      | inr e ↦ rw e (ground arith)
    ]

pub unvisited-le_length : (nodes xs : List String) → unvisited nodes xs ≤ length nodes
unvisited-le_length [] xs = omega arith
unvisited-le_length (n ∷ ns) xs =
    let rest = unvisited-le_length ns xs in
    elim (Bool-cases (includes xs n)) [
      | inl e ↦ rw e (omega (arith, rest))
      | inr e ↦ rw e (omega (arith, rest))
    ]
