-- ===== src/Profile/Apart.antt =====
-- The keys of one profile are pairwise different, and some other profile shares none of them.
use text.Mathlib.TextLemmas.{append_cancel_left}
use scafctl_plugin_auth_gith.Prelude.{
  String, ◌<>◌, ◌==◌, eq_iff, Bool-cases, false, ◌≡◌, ◌≢◌, refl, sym, subst, ◌∙◌, inl, inr,
}
use scafctl_plugin_auth_gith.Effect.{ok}
use scafctl_plugin_auth_gith.Profile.Names.{validate_profile, secret_key_base}
use scafctl_plugin_auth_gith.Profile.Dots.{NoDot, not-NoDot-dotted}
use scafctl_plugin_auth_gith.Profile.Keys.{
  SecretName, name_text, in_profile, key_of, prefix_of, prefix_key, name-NoDot, Owned,
  Owned-disjoint,
}

pub differ : (a b : String) → a ≢ b → a == b ≡ false
differ a b ne = elim (Bool-cases (a == b)) [
  | inl same ↦ absurd (ne ((eq_iff a b).0 same))
  | inr other ↦ other
]

in_profile-injective : (p t u : String) → in_profile p t ≡ in_profile p u → t ≡ u
in_profile-injective p t u e = elim (Bool-cases (p == "")) [
  | inl empty ↦ rw empty at e
  | inr full ↦ append_cancel_left "." t u (append_cancel_left p _ _ (rw full at e))
]

pub key_of-injective :
    (p : String) (k j : SecretName) → key_of p k ≡ key_of p j → name_text k ≡ name_text j
key_of-injective p k j e = in_profile-injective p _ _ (append_cancel_left secret_key_base _ _ e)

-- The key of a cached token is not that of a secret.
pub cached-secret_apart :
    (p rest : String) (k : SecretName) → (prefix_of p <> rest) == key_of p k ≡ false
cached-secret_apart p rest k = differ _ _ λ e. not-NoDot-dotted "token" rest (
    subst NoDot
      (sym (
        in_profile-injective p _ _
          (append_cancel_left secret_key_base _ _ (sym (prefix_key p rest) ∙ e))))
      (name-NoDot k))

pub unlike : (a b : String) → a == b ≡ false → a ≢ b
unlike a b h e = let same = (eq_iff a b).1 e in cc

abbrev pub Stranger : String → Type 0
Stranger p =
    (q : String) × (validate_profile q ≡ ok tt) × ((key : String) → Owned p key → ¬ Owned q key)

stranger_named :
    (p q : String)
    → validate_profile p ≡ ok tt
    → validate_profile q ≡ ok tt
    → p ≢ q
    → q ≢ "token"
    → q ≢ ""
    → Stranger p
stranger_named p q vp vq ne not_token not_default = (
  q,
  vq,
  λ key.
      Owned-disjoint p q key vp vq ne
        λ o. elim o [ inl h ↦ not_token h.1 | inr h ↦ not_default h.1 ],
)

-- Some profile shares no key with a given one.
pub stranger : (p : String) → validate_profile p ≡ ok tt → Stranger p
unfolding validate_profile
stranger p valid = elim (Bool-cases (p == "x")) [
  | inl same ↦
      stranger_named p "y" valid refl (λ e. unlike "x" "y" refl (sym ((eq_iff p "x").0 same) ∙ e))
        (unlike "y" "token" refl) (unlike "y" "" refl)
  | inr other ↦
      stranger_named p "x" valid refl (unlike p "x" other) (unlike "x" "token" refl)
        (unlike "x" "" refl)
]
