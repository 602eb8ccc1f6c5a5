-- ===== src/Prelude/Text.antt =====
-- What the program does with texts: joining, the empty text, blank texts, numerals.
use Prim.Native.Nat.{ℕ, zero, suc, ◌/◌, ◌%◌}
use Prim.Native.Char.{code}
use Prim.Native.String as PyText
use Prim.Native.String.{String, compare}
use mathlib.Core.Bool.{Bool, true, ◌||◌, ◌&&◌}
use text.Mathlib.Text.{◌==◌, is_le}
use yoma.Prelude.Tests.{ltb, leb, eqb, if◌then◌else◌}

-- An f-string that puts one text behind another.
abbrev pub concat : String → String → String
concat s t = PyText.◌++◌ s t

-- `not s`
abbrev pub is_empty : String → Bool
is_empty s = s == ""

-- Python's order on texts, `s <= t`.
abbrev pub text_leb : String → String → Bool
text_leb s t = is_le (compare s t)

-- The whitespace of `str.strip`, over ASCII.
is_space : ℕ → Bool
is_space c = eqb c 32 || (leb 9 c && leb c 13) || (leb 28 c && leb c 31)

-- `not s.strip()`: nothing but whitespace.
unfoldable pub is_blank : String → Bool
unfolding is_space
is_blank String.[] = true
is_blank (String.◌∷◌ c s) = is_space (code c) && is_blank s

-- `str.lstrip` and `str.strip`.
unfoldable pub lstrip : String → String
unfolding is_space
lstrip String.[] = String.[]
lstrip (String.◌∷◌ c s) = let rest = lstrip s in if is_space (code c) then rest else String.◌∷◌ c s

unfoldable pub rstrip : String → String
unfolding is_space
rstrip String.[] = String.[]
rstrip (String.◌∷◌ c s) =
    let rest = rstrip s in
    if is_empty rest && is_space (code c) then String.[] else String.◌∷◌ c rest

unfoldable pub strip : String → String
strip s = rstrip (lstrip s)

abbrev pub digit : ℕ → String
digit n =
    if eqb n 0
    then "0"
    else if eqb n 1
    then "1"
    else if eqb n 2
    then "2"
    else if eqb n 3
    then "3"
    else if eqb n 4
    then "4"
    else if eqb n 5
    then "5"
    else if eqb n 6
    then "6"
    else if eqb n 7
    then "7"
    else if eqb n 8
    then "8"
    else "9"

unfoldable pub decimal_from : ℕ → ℕ → String
decimal_from zero n = digit n
decimal_from (suc fuel) n =
    let front = decimal_from fuel (n / 10) in
    if ltb n 10 then digit n else concat front (digit (n % 10))

-- `str(n)` of a natural number; it has no more than `n` digits behind the first.
unfoldable pub decimal : ℕ → String
unfolding decimal_from
decimal n = decimal_from n n
