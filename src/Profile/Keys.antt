-- ===== src/Profile/Keys.antt =====
-- Which keys of the host's secret store belong to a profile, and which of them two profiles share.
use text.Mathlib.TextLemmas.{append_cancel_left, append_assoc}
use scafctl_plugin_auth_gith.Prelude.{
  String, ◌<>◌, ◌==◌, eq_iff, Bool-cases, false, ◌≡◌, ◌≢◌, refl, sym, ◌∙◌, ap, subst, ◌⊎◌, inl, inr,
  if◌then◌else◌, arith,
}
use scafctl_plugin_auth_gith.Prelude.Text.{contains_any, trim_prefix}
use scafctl_plugin_auth_gith.Effect.{ok}
use scafctl_plugin_auth_gith.Profile.Names.{
  validate_profile, profile_secret_key, profile_token_prefix, secret_key_base,
  secret_key_refresh_token, secret_key_access_token, secret_key_metadata, secret_key_token_prefix,
}
use scafctl_plugin_auth_gith.Profile.Dots.{NoDot, NoDot-of_valid, not-NoDot-dotted, dot_split}

-- The three secrets of a profile.
pub data SecretName : Type 0 where
  refresh_token access_token metadata : SecretName

abbrev pub name_text : SecretName → String
name_text refresh_token = "refresh_token"
name_text access_token = "access_token"
name_text metadata = "metadata"

abbrev pub secret_key : SecretName → String
secret_key refresh_token = secret_key_refresh_token
secret_key access_token = secret_key_access_token
secret_key metadata = secret_key_metadata

-- What follows the profile in a key: a secret's name, or the name of a cached token.
abbrev pub Part : String → Type 0
Part t = ((k : SecretName) × (t ≡ name_text k)) ⊎ ((rest : String) × (t ≡ "token" <> ("." <> rest)))

abbrev pub in_profile : String → String → String
in_profile profile t = if profile == "" then t else profile <> ("." <> t)

-- The keys that belong to a profile.
abbrev pub Owned : String → String → Type 0
Owned profile key = (t : String) × Part t × (key ≡ secret_key_base <> in_profile profile t)

-- The default profile and one that is called `token`.
abbrev pub Overlaps : String → String → Type 0
Overlaps p q = ((p ≡ "") × (q ≡ "token")) ⊎ ((p ≡ "token") × (q ≡ ""))

pub name-NoDot : (k : SecretName) → NoDot (name_text k)
name-NoDot refresh_token = omega arith
name-NoDot access_token = omega arith
name-NoDot metadata = omega arith

pub validate-NoDot : (p : String) → validate_profile p ≡ ok tt → NoDot p
unfolding validate_profile
validate-NoDot p h = elim (Bool-cases (p == "")) [
  | inl empty ↦ subst NoDot (sym ((eq_iff p "").0 empty)) tt
  | inr full ↦ NoDot-of_valid p (ground arith)
]

abbrev pub key_of : String → SecretName → String
key_of p k = secret_key_base <> in_profile p (name_text k)

abbrev pub prefix_of : String → String
prefix_of p = if p == "" then secret_key_token_prefix else secret_key_base <> (p <> ".token.")

-- In a valid name no character is forbidden.
allowed_characters :
    (p : String) → validate_profile p ≡ ok tt → p == "" ≡ false → contains_any p "./\\:" ≡ false
unfolding validate_profile
allowed_characters p v full = ground arith

trimmed : (k : SecretName) → trim_prefix (secret_key k) secret_key_base ≡ name_text k
unfolding trim_prefix
trimmed refresh_token = refl
trimmed access_token = refl
trimmed metadata = refl

whole : (k : SecretName) → secret_key k ≡ secret_key_base <> name_text k
whole refresh_token = refl
whole access_token = refl
whole metadata = refl

pub profile_secret_key_valid :
    (k : SecretName) (p : String)
    → validate_profile p ≡ ok tt
    → profile_secret_key (secret_key k) p ≡ ok (key_of p k)
profile_secret_key_valid k p v = elim (Bool-cases (p == "")) [
  | inl empty ↦ unfold profile_secret_key in rw (empty, whole k)
  | inr full ↦ unfold profile_secret_key in rw (full, allowed_characters p v full, trimmed k)
]

pub profile_token_prefix_valid :
    (p : String) → validate_profile p ≡ ok tt → profile_token_prefix p ≡ ok (prefix_of p)
unfolding profile_token_prefix
profile_token_prefix_valid p v = ground arith

pub key_of-Owned : (p : String) (k : SecretName) → Owned p (key_of p k)
key_of-Owned p k = (name_text k, inl (k, refl), refl)

token_dot : (x rest : String) → (x <> ".token.") <> rest ≡ x <> ("." <> ("token" <> ("." <> rest)))
token_dot x rest = append_assoc x ".token." rest ∙ ap (λ t. x <> t) dots
  where
    dots : ".token." <> rest ≡ "." <> ("token" <> ("." <> rest))
    dots = append_assoc "." "token." rest ∙ ap (λ t. "." <> t) (append_assoc "token" "." rest)

pub prefix_key :
    (p rest : String)
    → prefix_of p <> rest ≡ secret_key_base <> in_profile p ("token" <> ("." <> rest))
prefix_key p rest = elim (Bool-cases (p == "")) [
  | inl empty ↦ rw empty (
      append_assoc secret_key_base "token." rest
      ∙ ap (λ t. secret_key_base <> t) (append_assoc "token" "." rest))
  | inr full ↦ rw full (
      append_assoc secret_key_base (p <> ".token.") rest
      ∙ ap (λ t. secret_key_base <> t) (token_dot p rest))
]

pub prefix_of-Owned : (p rest : String) → Owned p (prefix_of p <> rest)
prefix_of-Owned p rest = ("token" <> ("." <> rest), inr (rest, refl), prefix_key p rest)

-- The secrets of the profile called `token` lie under the default profile's prefix.
pub token_secret-Owned : (k : SecretName) → Owned "" (key_of "token" k)
token_secret-Owned k = ("token" <> ("." <> name_text k), inr (name_text k, refl), refl)

-- What follows the base of a key tells the profiles apart.
Part-default : (q t u : String) → NoDot q → ¬ (q ≡ "token") → Part t → t ≡ q <> ("." <> u) → ⊥
Part-default q t u nq ne (inl (k, et)) e =
    not-NoDot-dotted q u (subst NoDot (sym et ∙ e) (name-NoDot k))
Part-default q t u nq ne (inr (rest, et)) e =
    ne (sym ((dot_split "token" q rest u (omega arith) nq (sym et ∙ e)).0))

same-profile :
    (p q t u : String)
    → NoDot p
    → NoDot q
    → p ≢ q
    → ¬ Overlaps p q
    → Part t
    → Part u
    → in_profile p t ≡ in_profile q u
    → ⊥
same-profile p q t u np nq ne apart pt pu e = elim (Bool-cases (p == "")) [
  | inl p_empty ↦ elim (Bool-cases (q == "")) [
    | inl q_empty ↦ ne ((eq_iff p "").0 p_empty ∙ sym ((eq_iff q "").0 q_empty))
    | inr q_full ↦
        Part-default q t u nq (λ h. apart (inl ((eq_iff p "").0 p_empty, h))) pt
          (rw (p_empty, q_full) at e)
  ]
  | inr p_full ↦ elim (Bool-cases (q == "")) [
    | inl q_empty ↦
        Part-default p u t np (λ h. apart (inr (h, (eq_iff q "").0 q_empty))) pu
          (sym (rw (p_full, q_empty) at e))
    | inr q_full ↦ ne (dot_split p q t u np nq (rw (p_full, q_full) at e)).0
  ]
]

-- Two different profiles with valid names share no key, unless one is the default profile and the
-- other is called `token`.
pub Owned-disjoint :
    (p q key : String)
    → validate_profile p ≡ ok tt
    → validate_profile q ≡ ok tt
    → p ≢ q
    → ¬ Overlaps p q
    → Owned p key
    → ¬ Owned q key
Owned-disjoint p q key vp vq ne apart (t, pt, et) (u, pu, eu) =
    same-profile p q t u (validate-NoDot p vp) (validate-NoDot q vq) ne apart pt pu
      (append_cancel_left secret_key_base _ _ (sym et ∙ eu))
