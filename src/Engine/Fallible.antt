-- ===== src/Engine/Fallible.antt =====
-- A call of the engine that may throw, with the message it throws.
use corellia.Prelude.{String}

pub data Fallible {ℓ} (A : Type ℓ) : Type ℓ where
  returns : A → Fallible A
  throws : String → Fallible A

-- `await` of a call, and what follows it.
unfoldable pub and_then :
    {A B S : Type 0} → Fallible A × S → (A → S → Fallible B × S) → Fallible B × S
and_then (returns a, w) next = next a w
and_then (throws m, w) next = (throws m, w)

-- What holds of both outcomes of a call holds of what is made of it.
pub fallible_intro {ℓ κ} :
    {A : Type 0} {B : Type ℓ} (P : B → Type κ) (r : Fallible A) {f : String → B} {g : A → B}
    → ((m : String) → P (f m))
    → ((a : A) → P (g a))
    → P (elim r as (λ _. B) [ returns a ↦ g a | throws m ↦ f m ])
fallible_intro P (returns a) h k = k a
fallible_intro P (throws m) h k = h m

-- What a call returns has a property, if it returns.
unfoldable pub Holds : {A S : Type 0} → (A → Type 0) → Fallible A × S → Type 0
Holds P (returns a, s) = P a
Holds P (throws m, s) = Unit

pub Holds-returns : {A S : Type 0} (P : A → Type 0) (a : A) (s : S) → P a → Holds P (returns a, s)
unfolding Holds
Holds-returns P a s p = p

pub Holds-throws : {A S : Type 0} (P : A → Type 0) (m : String) (s : S) → Holds P (throws m, s)
unfolding Holds
Holds-throws P m s = tt

-- Each call has the property that always holds.
pub Holds-any : {A S : Type 0} (r : Fallible A × S) → Holds (λ _. Unit) r
unfolding Holds
Holds-any (returns a, s) = tt
Holds-any (throws m, s) = tt

pub Holds-and_then :
    {A B S : Type 0} (P : A → Type 0) (Q : B → Type 0) (r : Fallible A × S)
    (next : A → S → Fallible B × S)
    → Holds P r
    → ((a : A) (s : S) → P a → Holds Q (next a s))
    → Holds Q (and_then r next)
unfolding Holds and_then
Holds-and_then P Q (returns a, s) next h k = k a s h
Holds-and_then P Q (throws m, s) next h k = tt

-- The property is one of what is returned, whatever the state.
pub Holds-state :
    {A S T : Type 0} (P : A → Type 0) (r : Fallible A × S) (t : T) → Holds P r → Holds P (r.0, t)
unfolding Holds
Holds-state P (returns a, s) t h = h
Holds-state P (throws m, s) t h = tt
