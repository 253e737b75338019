-- ===== src/Tests/Store.antt =====
-- An in-memory secret store, and the pattern of `ListSecrets`: a prefix and a star.
use Prim.Native.Char.{code}
use Prim.Native.String.{String as Text}
use text.Mathlib.TextLemmas.{cons-append, nil-append}
use text.Mathlib.TextEquality.{Char-path}
use mathlib.Core.Path.{ap₂}
use mathlib.Core.Option.{some-injective, none-ne-some}
use scafctl_plugin_auth_gith.Prelude.{
  String, ℕ, ◌<>◌, ◌==◌, eq_iff, eqb, Bool-cases, ◌≡◌, refl, sym, ◌∙◌, ap, true, Option, none, some,
  List, [], ◌∷◌, inl, inr, if◌then◌else◌, arith,
}
use scafctl_plugin_auth_gith.Prelude.Text.{strip}
use scafctl_plugin_auth_gith.Frame.{AllBegin}

abbrev pub Secrets : Type 0
Secrets = List (String × String)

-- The first entry under the name counts.
abbrev pub lookup : Secrets → String → Option String
lookup [] name = none
lookup ((first, value) ∷ others) name = if first == name then some value else lookup others name

abbrev pub erase : String → Secrets → Secrets
erase name [] = []
erase name ((first, value) ∷ others) =
    let left = erase name others in if first == name then left else (first, value) ∷ left

abbrev pub insert : String → String → Secrets → Secrets
insert name value [] = (name, value) ∷ []
insert name value ((first, old) ∷ others) =
    if first == name then (name, value) ∷ others else (first, old) ∷ insert name value others

pub lookup-insert :
    (name other value : String) (held : Secrets)
    → lookup (insert name value held) other
      ≡ (if name == other then some value else lookup held other)
lookup-insert name other value [] = refl
lookup-insert name other value ((first, old) ∷ held) = ground (
  lookup-insert name other value held,
  eq_iff first other,
  eq_iff first name,
  eq_iff name other,
  arith,
)

pub lookup-erase :
    (k j : String) (m : Secrets) → lookup (erase k m) j ≡ (if k == j then none else lookup m j)
lookup-erase k j [] = ground arith
lookup-erase k j ((i, w) ∷ m) =
    ground (arith, eq_iff k j, eq_iff i k, eq_iff i j, lookup-erase k j m)

-- The text without its last character.
abbrev pub without_last : String → String
without_last Text.[] = ""
without_last (Text.◌∷◌ c Text.[]) = ""
without_last (Text.◌∷◌ c (Text.◌∷◌ d s)) = Text.◌∷◌ c (without_last (Text.◌∷◌ d s))

abbrev pub keep_key : String → Option String → List String → List String
keep_key key none keys = keys
keep_key key (some rest) keys = key ∷ keys

abbrev pub under : String → Secrets → List String
under prefix [] = []
under prefix ((k, v) ∷ m) = keep_key k (strip prefix k) (under prefix m)

eqb→eq : (a b : ℕ) → eqb a b ≡ true → a ≡ b
eqb→eq a b h = ground arith

strip_sound : (p s rest : String) → strip p s ≡ some rest → s ≡ p <> rest
strip_sound Text.[] s rest h = some-injective s rest h ∙ sym (nil-append rest)
strip_sound (Text.◌∷◌ d p) Text.[] rest h = cc
strip_sound (Text.◌∷◌ d p) (Text.◌∷◌ c s) rest h = elim (Bool-cases (eqb (code c) (code d))) [
  | inl same ↦
      ap₂ (λ x y. Text.◌∷◌ x y) (Char-path c d (eqb→eq (code c) (code d) same))
        (strip_sound p s rest (rw same at h))
      ∙ sym (cons-append d p rest)
  | inr differ ↦ absurd (none-ne-some rest (rw differ at h))
]

keep_key-AllBegin :
    (prefix k : String) (o : Option String) (keys : List String)
    → strip prefix k ≡ o
    → AllBegin prefix keys
    → AllBegin prefix (keep_key k o keys)
keep_key-AllBegin prefix k none keys e h = h
keep_key-AllBegin prefix k (some rest) keys e h = ((rest, strip_sound prefix k rest e), h)

pub under-AllBegin : (prefix : String) (m : Secrets) → AllBegin prefix (under prefix m)
under-AllBegin prefix [] = tt
under-AllBegin prefix ((k, v) ∷ m) =
    keep_key-AllBegin prefix k (strip prefix k) (under prefix m) refl (under-AllBegin prefix m)

pub without_last_star : (prefix : String) → without_last (prefix <> "*") ≡ prefix
without_last_star Text.[] = refl
without_last_star (Text.◌∷◌ c Text.[]) =
    ap without_last (cons-append c "" "*" ∙ ap (λ t. Text.◌∷◌ c t) (nil-append "*"))
without_last_star (Text.◌∷◌ c (Text.◌∷◌ d s)) =
    ap without_last
      (cons-append c (Text.◌∷◌ d s) "*" ∙ ap (λ t. Text.◌∷◌ c t) (cons-append d s "*"))
    ∙ ap (λ t. Text.◌∷◌ c t)
        (ap without_last (sym (cons-append d s "*")) ∙ without_last_star (Text.◌∷◌ d s))
