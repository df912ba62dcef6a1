-- ===== src/Engine/Coverage/Paths.antt =====
-- The paths of src/library/coverage.ts and src/engine/coverage-gate.ts: slashes at the end of a
-- path, and regions that overlap.
use Prim.Native.Char.{code}
use Prim.Native.String.{String, ◌++◌ as append}
use text.Mathlib.Text.{starts_with}
use corellia.Prelude.{◌≡◌, refl, List, Bool, true, ◌||◌, any, str_eq, if◌then◌else◌, ◌==◌, length}

-- `s.replace(/\/$/, '')`
unfoldable pub region_key : String → String
region_key String.[] = ""
region_key (String.◌∷◌ c s) =
    let rest = String.◌∷◌ c (region_key s) in
    if str_eq s "" then (if code c == b'/' then "" else String.◌∷◌ c s) else rest

-- `s.replace(/\/+$/, '')`
unfoldable pub norm : String → String
norm String.[] = ""
norm (String.◌∷◌ c s) =
    let rest = norm s in
    if str_eq rest "" then (if code c == b'/' then "" else String.◌∷◌ c rest) else String.◌∷◌ c rest

trailing : (region_key "src/a//" ≡ "src/a/") × (norm "src/a//" ≡ "src/a")
unfolding region_key norm
trailing = (refl, refl)

unfoldable pub regions_overlap : String → String → Bool
unfolding norm
regions_overlap left right =
    let l = norm left in
    let r = norm right in
    str_eq l r || (starts_with l (append r "/") || starts_with r (append l "/"))

unfoldable pub scopes_overlap : List String → List String → Bool
scopes_overlap a b =
    if length a == 0 || length b == 0 then true else any (λ l. any (regions_overlap l) b) a
