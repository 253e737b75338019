-- ===== src/Transport/HeaderKeys.antt =====
-- How `http.Header` of Go's standard library spells a key, for internal/github/http.go:
-- `CanonicalMIMEHeaderKey`.
use Prim.Native.Char.{Char, code}
use scafctl_plugin_auth_gith.Prelude.{
  String, ℕ, ◌-◌, zero, suc, Bool, true, ◌&&◌, ◌||◌, ◌≡◌, refl, leb, eqb, if◌then◌else◌,
}
use scafctl_plugin_auth_gith.Prelude.Text.{has_char}

abbrev upper_letters : String
upper_letters = "ABCDEFGHIJKLMNOPQRSTUVWXYZ"

abbrev lower_letters : String
lower_letters = "abcdefghijklmnopqrstuvwxyz"

abbrev other_token_characters : String
other_token_characters = "0123456789!#$%&'*+-.^_`|~"

-- The character at a position, or else the one given.
abbrev char_at : Char → String → ℕ → Char
char_at default String.[] n = default
char_at default (String.◌∷◌ c s) zero = c
char_at default (String.◌∷◌ c s) (suc n) = char_at default s n

abbrev is_between : ℕ → ℕ → Char → Bool
is_between low high c = leb low (code c) && leb (code c) high

-- The letters from `a` to `z`, and from `A` to `Z`; other characters stay.
abbrev upper_case : Char → Char
upper_case c = if is_between 97 122 c then char_at c upper_letters (code c - 97) else c

abbrev lower_case : Char → Char
lower_case c = if is_between 65 90 c then char_at c lower_letters (code c - 65) else c

-- `validHeaderFieldByte` of every character.
abbrev is_token : String → Bool
is_token String.[] = true
is_token (String.◌∷◌ c s) =
    (is_between 97 122 c || is_between 65 90 c || has_char c other_token_characters) && is_token s

-- The first letter and each one after a `-` become upper case, the others lower case.
abbrev cased : Bool → String → String
cased upper String.[] = String.[]
cased upper (String.◌∷◌ c s) =
    String.◌∷◌ (if upper then upper_case c else lower_case c) (cased (eqb (code c) 45) s)

unfoldable pub canonical_key : String → String
canonical_key key = if is_token key then cased true key else key

lower_key : canonical_key "x-github-api-version" ≡ "X-Github-Api-Version"
unfolding canonical_key
lower_key = refl

upper_key : canonical_key "ACCEPT" ≡ "Accept"
unfolding canonical_key
upper_key = refl

spaced_key : canonical_key "not a key" ≡ "not a key"
unfolding canonical_key
spaced_key = refl
