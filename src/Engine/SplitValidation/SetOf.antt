-- ===== src/Engine/SplitValidation/SetOf.antt =====
-- The set of the ids in src/engine/split-validation.ts, and lists without repetition.
use corellia.Prelude.{
  ◌≤◌, ◌≡◌, ◌↔◌, inl, inr, refl, sym, subst, String, List, [], ◌∷◌, In, In-includes, includes-In,
  includes, length, arith, Bool-cases,
}
use corellia.Engine.SplitValidation.Check.{set_of}

-- No text stands twice in the list.
abbrev pub Distinct : List String → Type 0
Distinct [] = Unit
Distinct (x ∷ xs) = ¬ In x xs × Distinct xs

pub In-set_of : (xs : List String) (x : String) → In x (set_of xs) ↔ In x xs
unfolding set_of
In-set_of [] x = (λ m. m, λ m. m)
In-set_of (y ∷ ys) x =
    let rest = In-set_of ys x in
    elim (Bool-cases (includes ys y)) [
      | inl e ↦ rw e (
        λ m. inr (rest.0 m),
        λ m. elim m [
          | inl q ↦ rest.1 (subst (λ z. In z ys) (sym q) (includes-In ys y e))
          | inr k ↦ rest.1 k
        ],
      )
      | inr e ↦ rw e (
        λ m. elim m [ inl q ↦ inl q | inr k ↦ inr (rest.0 k) ],
        λ m. elim m [ inl q ↦ inl q | inr k ↦ inr (rest.1 k) ],
      )
    ]

length-set_of-le : (xs : List String) → length (set_of xs) ≤ length xs
unfolding set_of
length-set_of-le [] = omega arith
length-set_of-le (x ∷ xs) = let rest = length-set_of-le xs in ground arith

pub length-set_of : (xs : List String) → (length (set_of xs) ≡ length xs) ↔ Distinct xs
unfolding set_of
length-set_of [] = (λ h. tt, λ h. refl)
length-set_of (x ∷ xs) =
    let rest = length-set_of xs in
    let le = length-set_of-le xs in
    elim (Bool-cases (includes xs x)) [
      | inl e ↦ rw e (λ h. absurd (omega arith), λ d. absurd (d.0 (includes-In xs x e)))
      | inr e ↦ rw e (
        λ h. (λ m. let k = In-includes xs x m in cc, rest.0 (omega arith)),
        λ d. let k = rest.1 d.1 in omega arith,
      )
    ]
