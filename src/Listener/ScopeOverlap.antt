-- ===== src/Listener/ScopeOverlap.antt =====
-- src/listener/scope-overlap.ts: when two scopes may touch the same path.
use Prim.Native.String.{◌++◌ as append}
use text.Mathlib.Text.{starts_with}
use corellia.Prelude.{String, List, [], ◌∷◌, Bool, true, false, ◌||◌, any, str_eq}

unfoldable pub prefixes_overlap : String → String → Bool
prefixes_overlap pa pb =
    str_eq pa pb || (starts_with pa (append pb "/") || starts_with pb (append pa "/"))

-- The two nested loops, which return true at the first overlapping pair.
unfoldable pub pairs_overlap : List String → List String → Bool
pairs_overlap [] b = false
pairs_overlap (pa ∷ a) b = any (prefixes_overlap pa) b || pairs_overlap a b

unfoldable pub scopes_overlap : List String → List String → Bool
scopes_overlap [] b = true
scopes_overlap (pa ∷ a) [] = true
scopes_overlap (pa ∷ a) (pb ∷ b) = pairs_overlap (pa ∷ a) (pb ∷ b)
