-- ===== src/Engine/Attempt/Ladder.antt =====
-- Where a tier stands on the ladder of src/engine/attempt/, and how much of the ladder is left.
use corellia.Prelude.{
  ℕ, zero, suc, ◌+◌, ◌-◌, ◌*◌, ◌<◌, ◌≡◌, refl, subst, Option, none, some, List, [], ◌∷◌, Bool, true,
  false, arith, All, length, if◌then◌else◌,
}
use corellia.Contract.Goal.{Tier, low, mid, high}
use corellia.Engine.Attempt.Failure.{next_rung, rung}
use corellia.Engine.Attempt.Transition.{same_tier, tier_index_for}

-- No tier stands twice in the ladder.
abbrev pub IsStrict : List Tier → Type 0
IsStrict [] = Unit
IsStrict (t ∷ ts) = All (λ u. same_tier t u ≡ false) ts × IsStrict ts

same_tier_refl : (t : Tier) → same_tier t t ≡ true
same_tier_refl low = refl
same_tier_refl mid = refl
same_tier_refl high = refl

rung-All :
    (P : Tier → Type 0) (ts : List Tier) (n : ℕ) {t : Tier} → All P ts → rung ts n ≡ some t → P t
rung-All P [] n h e = cc
rung-All P (u ∷ us) zero {t} h e = let q : u ≡ t = cc e in subst P q h.0
rung-All P (u ∷ us) (suc n) h e = rung-All P us n h.1 e

pub tier_index_for-rung :
    (ts : List Tier) (n : ℕ) {t : Tier}
    → IsStrict ts
    → rung ts n ≡ some t
    → tier_index_for ts t ≡ some n
unfolding tier_index_for
tier_index_for-rung [] n s e = cc
tier_index_for-rung (u ∷ us) zero {t} s e =
    let q : u ≡ t = cc e in
    let hit : same_tier u t ≡ true = subst (λ x. same_tier u x ≡ true) q (same_tier_refl u) in
    ground arith
tier_index_for-rung (u ∷ us) (suc n) {t} s e =
    let miss = rung-All (λ x. same_tier u x ≡ false) us n s.0 e in
    let rest = tier_index_for-rung us n s.1 e in ground arith

rung-bound : (ts : List Tier) (n : ℕ) {t : Tier} → rung ts n ≡ some t → n < length ts
rung-bound [] n e = cc
rung-bound (u ∷ us) zero e = omega arith
rung-bound (u ∷ us) (suc n) e = omega (arith, rung-bound us n e)

-- The rungs above, counted twice, and one for a transport failure that may be retried.
abbrev pub rungs_left : List Tier → Option ℕ → ℕ
rungs_left ladder none = length ladder
rungs_left ladder (some i) = length ladder - (i + 1)

abbrev pub rank : List Tier → Option ℕ → Bool → ℕ
rank ladder index lost = 2 * rungs_left ladder index + (if lost then 0 else 1)

pub rank-climb :
    (ladder : List Tier) (index : Option ℕ) (lost lost' : Bool) {t : Tier}
    → IsStrict ladder
    → next_rung ladder index ≡ some t
    → rank ladder (tier_index_for ladder t) lost' < rank ladder index lost
rank-climb ladder none lost lost' s e =
    let found = tier_index_for-rung ladder 0 s e in
    let bound = rung-bound ladder 0 e in rw found (ground arith)
rank-climb ladder (some i) lost lost' s e =
    let found = tier_index_for-rung ladder (i + 1) s e in
    let bound = rung-bound ladder (i + 1) e in rw found (ground arith)
