-- ===== src/Listener/Examples.antt =====
-- Scopes that overlap, by src/listener/scope-overlap.ts.
use corellia.Prelude.{◌≡◌, refl, [], ◌∷◌, true}
use corellia.Listener.ScopeOverlap.{prefixes_overlap, pairs_overlap, scopes_overlap}

src-overlaps_part : scopes_overlap ("docs" ∷ "src" ∷ []) ("src/engine" ∷ []) ≡ true
unfolding scopes_overlap pairs_overlap prefixes_overlap
src-overlaps_part = refl
