-- ===== src/Prelude/Text.antt =====
-- Template strings: texts put together, and a number written in decimal.
use Prim.Native.Nat.{ℕ, zero, suc, ◌+◌, ◌/◌, ◌%◌}
use Prim.Native.Char.{code}
use Prim.Native.String.{String, ◌++◌ as append}
use mathlib.Core.Path.{◌≡◌, refl}
use mathlib.Core.Bool.{Bool, true, false, ◌&&◌, ◌||◌}
use mathlib.Core.Option.{Option, none, some}
use mathlib.Core.List.{List, [], ◌∷◌}
use corellia.Prelude.Tests.{ltb, leb, if◌then◌else◌, ◌==◌}
use corellia.Prelude.Int.{ℤ, pos, negsuc}

-- The pieces of a template string, put together.
unfoldable pub concat : List String → String
concat [] = ""
concat (s ∷ ss) = append s (concat ss)

-- `ss.join(sep)`
unfoldable pub join : String → List String → String
join sep [] = ""
join sep (s ∷ []) = s
join sep (s ∷ t ∷ ss) = append s (append sep (join sep (t ∷ ss)))

digit : ℕ → String
digit zero = "0"
digit (suc zero) = "1"
digit (suc (suc zero)) = "2"
digit (suc (suc (suc zero))) = "3"
digit (suc (suc (suc (suc zero)))) = "4"
digit (suc (suc (suc (suc (suc zero))))) = "5"
digit (suc (suc (suc (suc (suc (suc zero)))))) = "6"
digit (suc (suc (suc (suc (suc (suc (suc zero))))))) = "7"
digit (suc (suc (suc (suc (suc (suc (suc (suc zero)))))))) = "8"
digit _ = "9"

-- One digit for each round; a number is at least its count of digits, so `n + 1` rounds are enough.
decimal : ℕ → ℕ → String
decimal zero n = ""
decimal (suc f) n =
    let rest = append (decimal f (n / 10)) (digit (n % 10)) in if ltb n 10 then digit n else rest

-- `String(n)` for a whole number.
unfoldable pub show : ℕ → String
unfolding digit decimal
show n = decimal (suc n) n

show_small : show 1305 ≡ "1305"
unfolding show
show_small = refl

-- As many digits as asked for.
padded : ℕ → ℕ → String
padded zero n = ""
padded (suc d) n = append (padded d (n / 10)) (digit (n % 10))

-- A fraction of `d` digits without the zeros at its end.
fraction : ℕ → ℕ → String
fraction zero n = ""
fraction (suc d) n =
    let shorter = fraction d (n / 10) in
    if ltb 0 (n % 10) then append "." (padded (suc d) n) else shorter

-- `String(n)` for an amount of dollars in millionths.
unfoldable pub show_usd : ℕ → String
unfolding fraction padded digit
show_usd n = append (show (n / 1000000)) (fraction 6 (n % 1000000))

show_usd_small : (show_usd 1050000 ≡ "1.05") × (show_usd 2000000 ≡ "2")
unfolding show_usd show decimal digit fraction padded
show_usd_small = (refl, refl)

-- `String(n)` for an integer.
unfoldable pub show_ℤ : ℤ → String
show_ℤ (pos n) = show n
show_ℤ (negsuc n) = append "-" (show (suc n))

-- What follows a text that starts with the given one, up to a reading of the characters' codes.
unfoldable pub after : (ℕ → ℕ) → String → String → Option String
after reading String.[] s = some s
after reading (String.◌∷◌ c p) String.[] = none
after reading (String.◌∷◌ c p) (String.◌∷◌ d s) =
    let rest = after reading p s in if reading (code c) == reading (code d) then rest else none

-- What `\s` matches.
unfoldable pub is_space : ℕ → Bool
is_space n =
    (leb 9 n && leb n 13)
    || (n == 32 || n == 160 || n == 5760 || (leb 8192 n && leb n 8202))
    || (n == 8232 || n == 8233 || n == 8239 || n == 8287 || n == 12288 || n == 65279)

unfoldable pub skip_spaces : String → String
skip_spaces String.[] = ""
skip_spaces (String.◌∷◌ c s) =
    let rest = skip_spaces s in if is_space (code c) then rest else String.◌∷◌ c s

-- The code of a letter from A to Z, in lower case.
unfoldable pub lower : ℕ → ℕ
lower n = if leb 65 n && leb n 90 then n + 32 else n

abbrev is_some : Option String → Bool
is_some none = false
is_some (some s) = true

-- `s.includes(p)`, up to a reading of the codes.
unfoldable pub contains : (ℕ → ℕ) → String → String → Bool
contains reading p String.[] = is_some (after reading p "")
contains reading p (String.◌∷◌ c s) =
    is_some (after reading p (String.◌∷◌ c s)) || contains reading p s
