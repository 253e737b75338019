-- ===== src/Token/Load/Stored.antt =====
-- What the loaders of internal/github/token.go return from the host's secret store.
use scafctl_plugin_auth_gith.Prelude.{String, ◌<>◌, ℤ, Option, none, some, ◌≡◌, refl, ap, ◌∙◌}
use scafctl_plugin_auth_gith.Effect.{ok, err, pure, fail, lift, wrapped, ◌>>=◌}
use scafctl_plugin_auth_gith.Effect.Laws.{bind_runs}
use scafctl_plugin_auth_gith.World.{World}
use scafctl_plugin_auth_gith.Reliable.{Reliable}
use scafctl_plugin_auth_gith.Profile.{validate_profile, profile_secret_key}
use scafctl_plugin_auth_gith.Profile.Keys.{
  SecretName, refresh_token, access_token, metadata, secret_key, key_of, profile_secret_key_valid,
}
use scafctl_plugin_auth_gith.Handler.{
  Handler, Context, host_client, get_secret, secret_of, found_secret,
}
use scafctl_plugin_auth_gith.Token.Load.{load_refresh_token, load_access_token, load_metadata}

module _ ⦃W : World⦄ {secrets : W.State → String → Option String} {time : W.State → ℤ}
    (R : Reliable W secrets time) (client : W.HostClient) (p : Handler W) (ctx : Context W)
    (here : host_client p ctx ≡ some client) (valid : validate_profile ctx.profile ≡ ok tt) where
  secret-runs :
      (key value : String) (s : W.State)
      → secrets s key ≡ some value
      → get_secret p ctx key s ≡ (ok value, s)
  unfolding get_secret
  secret-runs key value s held =
      ap (λ c. secret_of c key s) here
      ∙ (unfold secret_of found_secret ◌>>=◌ pure in
          rw (R.get_secret client key s, held, found_secret) refl)

  pub secret-missing :
      (key : String) (s : W.State)
      → secrets s key ≡ none
      → get_secret p ctx key s ≡ (err ("secret " <> (W.quote key <> " not found")), s)
  unfolding get_secret
  secret-missing key s gone =
      ap (λ c. secret_of c key s) here
      ∙ (unfold secret_of found_secret ◌>>=◌ fail in
          rw (R.get_secret client key s, gone, found_secret) refl)

  -- The three loaders begin with the key of a secret.
  key-runs :
      (k : SecretName) (value : String) (s : W.State)
      → secrets s (key_of ctx.profile k) ≡ some value
      → ((lift (profile_secret_key (secret_key k) ctx.profile) >>= λ key. get_secret p ctx key) s)
        ≡ (ok value, s)
  unfolding lift
  key-runs k value s held =
      bind_runs _ _ s s _ (ap (λ r. lift r s) (profile_secret_key_valid k ctx.profile valid))
      ∙ secret-runs _ value s held

  pub refresh-runs :
      (value : String) (s : W.State)
      → secrets s (key_of ctx.profile refresh_token) ≡ some value
      → load_refresh_token p ctx s ≡ (ok value, s)
  unfolding load_refresh_token
  refresh-runs value s held = key-runs refresh_token value s held

  pub access-runs :
      (value : String) (s : W.State)
      → secrets s (key_of ctx.profile access_token) ≡ some value
      → load_access_token p ctx s ≡ (ok value, s)
  unfolding load_access_token
  access-runs value s held = key-runs access_token value s held

  pub metadata-runs :
      (value : String) (s : W.State)
      → secrets s (key_of ctx.profile metadata) ≡ some value
      → load_metadata p ctx s
        ≡ (wrapped "failed to unmarshal metadata" (W.decode_metadata value), s)
  unfolding load_metadata lift
  metadata-runs value s held =
      bind_runs _ _ s s _ (ap (λ r. lift r s) (profile_secret_key_valid metadata ctx.profile valid))
      ∙ bind_runs _ _ s s _ (secret-runs _ value s held)
