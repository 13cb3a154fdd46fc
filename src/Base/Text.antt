-- ===== src/Base/Text.antt =====
-- What the program uses of `str`: `trim`, `split` at an ASCII character, `split_once`, `join`,
-- `chars().take`, `to_ascii_lowercase` and `eq_ignore_ascii_case`. A text is the native `String`, a list of characters.
use Prim.Native.Char.{Char, code}
use Prim.Native.String.{◌++◌}
use Prim.Native.Nat.{ℕ, zero, suc, ◌+◌, ◌-◌}
use Prim.Native.String.{String}
use mathlib.Core.Bool.{Bool, true, false, ◌&&◌, ◌||◌}
use mathlib.Core.List.{List, [], ◌∷◌}
use mathlib.Core.Option.{Option, none, some}
use hegira.Base.Tests.{leb, ◌==◌, str_eq, if◌then◌else◌}

-- `char::is_whitespace`: the code points with the property White_Space.
is_whitespace : ℕ → Bool
is_whitespace c =
    (leb 9 c && leb c 13)
    || c == 0x20
    || c == 0x85
    || c == 0xa0
    || c == 0x1680
    || (leb 0x2000 c && leb c 0x200a)
    || c == 0x2028
    || c == 0x2029
    || c == 0x202f
    || c == 0x205f
    || c == 0x3000

trim_start : String → String
trim_start String.[] = ""
trim_start (String.◌∷◌ c s) =
    let rest = trim_start s in if is_whitespace (code c) then rest else String.◌∷◌ c s

trim_end : String → String
trim_end String.[] = ""
trim_end (String.◌∷◌ c s) =
    let rest = trim_end s in
    if str_eq rest "" && is_whitespace (code c) then "" else String.◌∷◌ c rest

-- `str::trim`
unfoldable pub trim : String → String
unfolding trim_start trim_end is_whitespace
trim s = trim_end (trim_start s)

-- Puts a character in front of the first piece.
abbrev onto_first : String → List String → List String
onto_first c [] = c ∷ []
onto_first c (s ∷ rest) = (c ++ s) ∷ rest

-- `str::split` at the ASCII character `sep`: a text with n separators has n + 1 pieces.
unfoldable pub split : ℕ → String → List String
split sep String.[] = "" ∷ []
split sep (String.◌∷◌ c s) =
    let rest = split sep s in if code c == sep then "" ∷ rest else onto_first (String.◌∷◌ c "") rest

-- `to_ascii_lowercase` on one code point.
ascii_lower : ℕ → ℕ
ascii_lower c = if leb b'A' c && leb c b'Z' then c + 32 else c

-- `str::eq_ignore_ascii_case`
unfoldable pub eq_ignore_ascii_case : String → String → Bool
unfolding ascii_lower
eq_ignore_ascii_case String.[] String.[] = true
eq_ignore_ascii_case (String.◌∷◌ c s) (String.◌∷◌ d t) =
    ascii_lower (code c) == ascii_lower (code d) && eq_ignore_ascii_case s t
eq_ignore_ascii_case _ _ = false

-- The character at a position of a text, or another one past its end.
char_or : Char → ℕ → String → Char
char_or c n String.[] = c
char_or c zero (String.◌∷◌ d s) = d
char_or c (suc n) (String.◌∷◌ d s) = char_or c n s

-- `char::to_ascii_lowercase`
lower_char : Char → Char
lower_char c =
    if leb b'A' (code c) && leb (code c) b'Z'
    then char_or c (code c - b'A') "abcdefghijklmnopqrstuvwxyz"
    else c

-- `str::to_ascii_lowercase`
unfoldable pub to_ascii_lowercase : String → String
unfolding lower_char char_or
to_ascii_lowercase String.[] = ""
to_ascii_lowercase (String.◌∷◌ c s) = String.◌∷◌ (lower_char c) (to_ascii_lowercase s)

-- `[String]::join`
unfoldable pub join : String → List String → String
join sep [] = ""
join sep (s ∷ []) = s
join sep (s ∷ t ∷ rest) = s ++ sep ++ join sep (t ∷ rest)

-- `chars().take(n).collect()`
unfoldable pub take_chars : ℕ → String → String
take_chars zero s = ""
take_chars (suc n) String.[] = ""
take_chars (suc n) (String.◌∷◌ c s) = String.◌∷◌ c (take_chars n s)

-- The first part of `str::split_once` at the ASCII character `sep`.
unfoldable pub before_first : ℕ → String → Option String
before_first sep String.[] = none
before_first sep (String.◌∷◌ c s) =
    let rest = before_first sep s in
    if code c == sep then some "" else elim rest [ none ↦ none | some t ↦ some (String.◌∷◌ c t) ]
