-- ===== src/Prelude/Text.antt =====
-- The functions of Go's `strings` package that the source calls, over the native text.
use Prim.Native.Nat.{ℕ, zero, suc, ◌/◌, ◌%◌}
use Prim.Native.Char.{Char, code}
use Prim.Native.String.{String, ◌++◌}
use scafctl_plugin_auth_gith.Prelude.Int.{ℤ, pos, negsuc}
use mathlib.Core.Bool.{Bool, false, ◌||◌}
use mathlib.Core.Option.{Option, none, some}
use mathlib.Core.List.{List, [], ◌∷◌}
use scafctl_plugin_auth_gith.Prelude.Tests.{eqb, ltb, if◌then◌else◌}

-- `chars` holds the character.
abbrev pub has_char : Char → String → Bool
has_char c String.[] = false
has_char c (String.◌∷◌ d chars) = eqb (code c) (code d) || has_char c chars

-- `strings.ContainsAny`: some character of the text is one of `chars`.
abbrev pub contains_any : String → String → Bool
contains_any String.[] chars = false
contains_any (String.◌∷◌ c s) chars = has_char c chars || contains_any s chars

-- What follows the prefix `p` in a text, if it begins with `p`.
abbrev pub strip : String → String → Option String
strip String.[] s = some s
strip (String.◌∷◌ d p) String.[] = none
strip (String.◌∷◌ d p) (String.◌∷◌ c s) = if eqb (code c) (code d) then strip p s else none

abbrev pub or_whole : Option String → String → String
or_whole none s = s
or_whole (some rest) s = rest

-- `strings.TrimPrefix`.
unfoldable pub trim_prefix : String → String → String
trim_prefix s p = or_whole (strip p s) s

-- `strings.Join`.
unfoldable pub join : List String → String → String
join [] sep = ""
join (x ∷ []) sep = x
join (x ∷ y ∷ rest) sep = x ++ (sep ++ join (y ∷ rest) sep)

abbrev digit : ℕ → String
digit n =
    if eqb n 0
    then "0"
    else if eqb n 1
    then "1"
    else if eqb n 2
    then "2"
    else if eqb n 3
    then "3"
    else if eqb n 4
    then "4"
    else if eqb n 5
    then "5"
    else if eqb n 6
    then "6"
    else if eqb n 7
    then "7"
    else if eqb n 8
    then "8"
    else "9"

-- The decimal digits of a number; a number has fewer digits than its successor counts.
digits_of : ℕ → ℕ → String
digits_of zero n = ""
digits_of (suc fuel) n =
    let rest = digits_of fuel (n / 10) in if ltb n 10 then digit n else rest ++ digit (n % 10)

-- `strconv.FormatInt(n, 10)` and `%d`.
unfoldable pub format_int : ℤ → String
unfolding digits_of
format_int (pos n) = digits_of (suc n) n
format_int (negsuc n) = "-" ++ digits_of (suc (suc n)) (suc n)
