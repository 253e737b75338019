-- ===== src/Frame/Rules.antt =====
-- What a valid profile's keys are to the frame, and a frame's fields as rules.
use scafctl_plugin_auth_gith.Prelude.{String, ◌<>◌, ◌≡◌, sym, ap, ◌∙◌, subst}
use scafctl_plugin_auth_gith.Effect.{ok, or_empty}
use scafctl_plugin_auth_gith.Profile.{
  validate_profile, profile_secret_key, profile_token_prefix, secret_key_refresh_token,
  secret_key_access_token, secret_key_metadata,
}
use scafctl_plugin_auth_gith.Profile.Keys.{
  Owned, SecretName, refresh_token, access_token, metadata, secret_key, key_of-Owned,
  prefix_of-Owned, profile_secret_key_valid, profile_token_prefix_valid,
}

module _ (profile : String) (valid : validate_profile profile ≡ ok tt) where
  ok-injective : {a b : String} → ok a ≡ ok b → a ≡ b
  ok-injective e = cc

  pub prefix-Owned :
      (prefix rest : String)
      → profile_token_prefix profile ≡ ok prefix
      → Owned profile (prefix <> rest)
  prefix-Owned prefix rest e =
      subst (λ x. Owned profile (x <> rest))
        (ok-injective (sym (profile_token_prefix_valid profile valid) ∙ e))
        (prefix_of-Owned profile rest)

  pub key-Owned :
      (k : SecretName) → Owned profile (or_empty (profile_secret_key (secret_key k) profile))
  key-Owned k =
      subst (Owned profile) (sym (ap or_empty (profile_secret_key_valid k profile valid)))
        (key_of-Owned profile k)

  pub refresh_token-Owned :
      Owned profile (or_empty (profile_secret_key secret_key_refresh_token profile))
  refresh_token-Owned = key-Owned refresh_token

  pub access_token-Owned :
      Owned profile (or_empty (profile_secret_key secret_key_access_token profile))
  access_token-Owned = key-Owned access_token

  pub metadata-Owned : Owned profile (or_empty (profile_secret_key secret_key_metadata profile))
  metadata-Owned = key-Owned metadata
