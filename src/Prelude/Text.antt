-- ===== src/Prelude/Text.antt =====
-- Python's `s[:n]` on texts, and the truth of optional texts.
use Prim.Native.Nat.{ℕ, zero, suc, ◌/◌, ◌%◌}
use Prim.Native.Char.{Char, code}
use Prim.Native.String.{String, ◌++◌ as ◌<>◌, slice}
use mathlib.Core.Bool.{Bool, true, false, ◌&&◌, ◌||◌}
use objekt_bernahme_automati.Prelude.Tests.{ltb, leb, ◌==◌, if◌then◌else◌}

-- The first `n` characters.
unfoldable pub prefix : ℕ → String → String
prefix zero s = ""
prefix (suc n) String.[] = ""
prefix (suc n) (String.◌∷◌ c s) = String.◌∷◌ c (prefix n s)

-- `bool(s)`
abbrev pub is_blank : String → Bool
is_blank String.[] = true
is_blank (String.◌∷◌ c s) = false

abbrev pub digit : ℕ → String
digit n = slice "0123456789" n (suc n)

-- The decimal digits of a number; a number has fewer digits than its value, or is 0.
abbrev pub digits : ℕ → ℕ → String
digits zero n = digit n
digits (suc fuel) n =
    let front = digits fuel (n / 10) in if ltb n 10 then digit n else front <> digit (n % 10)

-- `str(n)`
abbrev pub decimal : ℕ → String
decimal n = digits n n

-- `\s` of ASCII, and a text with a character besides: `bool(s.strip())`.
abbrev pub is_space : Char → Bool
is_space c =
    (code c == 32) || (leb 9 (code c) && leb (code c) 13) || (leb 28 (code c) && leb (code c) 31)

abbrev pub has_text : String → Bool
has_text String.[] = false
has_text (String.◌∷◌ c s) = let rest = has_text s in if is_space c then rest else true
