-- ===== src/Prelude/ListLaws.antt =====
-- Membership, and what the array methods say of the members.
use mathlib.Core.Path.{◌≡◌, refl, sym, subst}
use mathlib.Core.Logic.{◌⊎◌, inl, inr}
use mathlib.Core.Bool.{Bool, true, false}
use mathlib.Core.Option.{none, some}
use mathlib.Core.List.{List, [], ◌∷◌, ◌++◌}
use native.Mathlib.Omega.{arith}
use corellia.Prelude.Tests.{Bool-cases, str_eq, str_eq→eq, str_eq_self}
use Prim.Native.String.{String}
use corellia.Prelude.Lists.{any, all, filter, find?, In, All, includes}

module _ {A : Type 0} where
  pub All-In : (P : A → Type 0) (xs : List A) (x : A) → All P xs → In x xs → P x
  All-In P (y ∷ ys) x h (inl e) = subst P (sym e) h.0
  All-In P (y ∷ ys) x h (inr m) = All-In P ys x h.1 m
  All-In P [] x h m = absurd m

  pub All-of_In : (P : A → Type 0) (xs : List A) → ((x : A) → In x xs → P x) → All P xs
  All-of_In P [] h = tt
  All-of_In P (x ∷ xs) h = (h x (inl refl), All-of_In P xs (λ y m. h y (inr m)))

  pub In-append_left : (xs ys : List A) (x : A) → In x xs → In x (xs ++ ys)
  In-append_left (z ∷ zs) ys x (inl e) = inl e
  In-append_left (z ∷ zs) ys x (inr m) = inr (In-append_left zs ys x m)
  In-append_left [] ys x m = absurd m

  pub In-append_right : (xs ys : List A) (x : A) → In x ys → In x (xs ++ ys)
  In-append_right [] ys x m = m
  In-append_right (z ∷ zs) ys x m = inr (In-append_right zs ys x m)

  pub In-append : (xs ys : List A) (x : A) → In x (xs ++ ys) → In x xs ⊎ In x ys
  In-append [] ys x m = inr m
  In-append (z ∷ zs) ys x (inl e) = inl (inl e)
  In-append (z ∷ zs) ys x (inr m) = elim (In-append zs ys x m) [
    | inl a ↦ inl (inr a)
    | inr b ↦ inr b
  ]

  pub All-append : (P : A → Type 0) (xs ys : List A) → All P xs → All P ys → All P (xs ++ ys)
  All-append P [] ys hx hy = hy
  All-append P (x ∷ xs) ys hx hy = (hx.0, All-append P xs ys hx.1 hy)

  module _ (p : A → Bool) where
    pub find?-In : (xs : List A) {x : A} → find? p xs ≡ some x → In x xs
    find?-In [] h = cc
    find?-In (y ∷ ys) h = elim (Bool-cases (p y)) [
      | inl e ↦ inl (ground arith)
      | inr e ↦ inr (find?-In ys (ground arith))
    ]

    pub find?-true : (xs : List A) {x : A} → find? p xs ≡ some x → p x ≡ true
    find?-true [] h = cc
    find?-true (y ∷ ys) {x} h = elim (Bool-cases (p y)) [
      | inl e ↦ ground arith
      | inr e ↦ find?-true ys (ground arith)
    ]

    pub find?-none : (xs : List A) (x : A) → find? p xs ≡ none → In x xs → p x ≡ false
    find?-none [] x h m = absurd m
    find?-none (y ∷ ys) x h (inl e) = ground arith
    find?-none (y ∷ ys) x h (inr m) = find?-none ys x (ground arith) m

    pub In-filter : (xs : List A) (x : A) → In x (filter p xs) → In x xs × (p x ≡ true)
    In-filter [] x m = absurd m
    In-filter (y ∷ ys) x m = elim (Bool-cases (p y)) [
      | inl e ↦ elim (let m' : In x (y ∷ filter p ys) = rw e at m in m') [
        | inl q ↦ (inl q, rw q e)
        | inr r ↦ let (a, b) = In-filter ys x r in (inr a, b)
      ]
      | inr e ↦ let (a, b) = In-filter ys x (rw e at m) in (inr a, b)
    ]

    pub In-filter_intro : (xs : List A) (x : A) → In x xs → p x ≡ true → In x (filter p xs)
    In-filter_intro [] x m h = absurd m
    In-filter_intro (y ∷ ys) x (inl q) h = let e : p y ≡ true = ground arith in rw e (inl q)
    In-filter_intro (y ∷ ys) x (inr m) h = elim (Bool-cases (p y)) [
      | inl e ↦ rw e (inr (In-filter_intro ys x m h))
      | inr e ↦ rw e (In-filter_intro ys x m h)
    ]

    pub any-false : (xs : List A) (x : A) → any p xs ≡ false → In x xs → p x ≡ false
    any-false [] x h m = absurd m
    any-false (y ∷ ys) x h (inl e) = ground arith
    any-false (y ∷ ys) x h (inr m) = any-false ys x (ground arith) m

    pub any-true : (xs : List A) → any p xs ≡ true → (x : A) × In x xs × (p x ≡ true)
    any-true [] h = cc
    any-true (y ∷ ys) h = elim (Bool-cases (p y)) [
      | inl e ↦ (y, inl refl, e)
      | inr e ↦ let (x, m, t) = any-true ys (ground arith) in (x, inr m, t)
    ]

    pub any_intro : (xs : List A) (x : A) → In x xs → p x ≡ true → any p xs ≡ true
    any_intro [] x m h = absurd m
    any_intro (y ∷ ys) x (inl e) h = ground arith
    any_intro (y ∷ ys) x (inr m) h = ground (arith, any_intro ys x m h)

    pub all-true : (xs : List A) (x : A) → all p xs ≡ true → In x xs → p x ≡ true
    all-true [] x h m = absurd m
    all-true (y ∷ ys) x h (inl e) = ground arith
    all-true (y ∷ ys) x h (inr m) = all-true ys x (ground arith) m

pub append-empty : {A : Type 0} (xs ys : List A) → xs ++ ys ≡ [] → (xs ≡ []) × (ys ≡ [])
append-empty [] ys h = (refl, h)
append-empty (x ∷ xs) ys h = cc

pub append-empty_intro : {A : Type 0} (xs ys : List A) → xs ≡ [] → ys ≡ [] → xs ++ ys ≡ []
append-empty_intro [] ys h k = k
append-empty_intro (x ∷ xs) ys h k = cc

pub includes-In : (xs : List String) (x : String) → includes xs x ≡ true → In x xs
includes-In [] x h = cc
includes-In (y ∷ ys) x h = elim (Bool-cases (str_eq y x)) [
  | inl e ↦ inl (sym (str_eq→eq y x e))
  | inr e ↦ inr (includes-In ys x (ground arith))
]

pub In-includes : (xs : List String) (x : String) → In x xs → includes xs x ≡ true
In-includes [] x m = absurd m
In-includes (y ∷ ys) x (inl e) = let self = str_eq_self y in rw e (ground arith)
In-includes (y ∷ ys) x (inr m) = let rest = In-includes ys x m in ground arith
