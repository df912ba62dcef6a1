-- ===== src/Listener/Symmetric.antt =====
-- The rule of src/listener/scope-overlap.ts, with its two scopes exchanged.
use corellia.Prelude.{
  ◌≡◌, refl, String, List, [], ◌∷◌, true, arith, any, any-true, any_intro, In, str_eq, str_eq→eq,
  str_eq_self, Bool-cases, inl, inr, subst, ||-eq-true,
}
use corellia.Listener.ScopeOverlap.{prefixes_overlap, pairs_overlap, scopes_overlap}

str_eq_sym : (a b : String) → str_eq a b ≡ true → str_eq b a ≡ true
str_eq_sym a b h = subst (λ x. str_eq x a ≡ true) (str_eq→eq a b h) (str_eq_self a)

prefixes_sym : (a b : String) → prefixes_overlap a b ≡ true → prefixes_overlap b a ≡ true
unfolding prefixes_overlap
prefixes_sym a b h = elim (Bool-cases (str_eq a b)) [
  | inl e ↦ let back = str_eq_sym a b e in ground arith
  | inr e ↦ ground arith
]

-- Some pair of prefixes overlaps.
pairs-true :
    (a b : List String)
    → pairs_overlap a b ≡ true
    → (x : String) × (y : String) × In x a × In y b × (prefixes_overlap x y ≡ true)
unfolding pairs_overlap
pairs-true [] b h = cc
pairs-true (x ∷ a) b h = elim (||-eq-true (any (prefixes_overlap x) b) (pairs_overlap a b) h) [
  | inl e ↦ let (y, m, o) = any-true (prefixes_overlap x) b e in (x, y, inl refl, m, o)
  | inr e ↦ let (z, y, m, n, o) = pairs-true a b e in (z, y, inr m, n, o)
]

pairs_intro :
    (a b : List String) (x y : String)
    → In x a
    → In y b
    → prefixes_overlap x y ≡ true
    → pairs_overlap a b ≡ true
unfolding pairs_overlap
pairs_intro [] b x y m n o = absurd m
pairs_intro (z ∷ a) b x y (inl e) n o =
    let hit = any_intro (prefixes_overlap z) b y n (subst (λ w. prefixes_overlap w y ≡ true) e o) in
    ground arith
pairs_intro (z ∷ a) b x y (inr m) n o = let rest = pairs_intro a b x y m n o in ground arith

-- Where a scope overlaps another, that overlaps it.
pub scopes_overlap_sym : (a b : List String) → scopes_overlap a b ≡ true → scopes_overlap b a ≡ true
unfolding scopes_overlap
scopes_overlap_sym [] [] h = refl
scopes_overlap_sym [] (y ∷ b) h = refl
scopes_overlap_sym (x ∷ a) [] h = refl
scopes_overlap_sym (x ∷ a) (y ∷ b) h =
    let (p, r, m, n, o) = pairs-true (x ∷ a) (y ∷ b) h in
    pairs_intro (y ∷ b) (x ∷ a) r p n m (prefixes_sym p r o)
