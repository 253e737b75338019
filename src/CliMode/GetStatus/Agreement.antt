-- ===== src/CliMode/GetStatus/Agreement.antt =====
-- The status beside the token request: GetStatus and GetToken of internal/github/cli_mode.go.
use scafctl_plugin_auth_gith.Prelude.{
  String, ◌==◌, ℤ, ◌+ℤ◌, not, ◌&&◌, Bool, true, false, Option, some, ◌≡◌, refl, ap, ◌∙◌,
  if◌then◌else◌,
}
use scafctl_plugin_auth_gith.Effect.{
  ok, panic, Exec, pure, lift, gets, try, caught, wrapped, or_empty, ◌>>=◌,
}
use scafctl_plugin_auth_gith.Effect.Laws.{bind_runs}
use scafctl_plugin_auth_gith.Types.{TokenCacheEntry, TokenMetadata, TokenRequest, Status}
use scafctl_plugin_auth_gith.World.{World}
use scafctl_plugin_auth_gith.Reliable.{Reliable}
use scafctl_plugin_auth_gith.Profile.{
  validate_profile, profile_secret_key, secret_key_refresh_token, secret_key_access_token,
}
use scafctl_plugin_auth_gith.Profile.Keys.{key_of, access_token, metadata, profile_secret_key_valid}
use scafctl_plugin_auth_gith.Handler.{
  Handler, Context, host_client, secret_exists, exists_in, was_found,
}
use scafctl_plugin_auth_gith.Cache.{is_past}
use scafctl_plugin_auth_gith.Cache.Runs.{is_past_at, past-runs}
use scafctl_plugin_auth_gith.Token.Load.{load_metadata}
use scafctl_plugin_auth_gith.Token.Load.Stored.{metadata-runs}
use scafctl_plugin_auth_gith.Token.Store.{one_year}
use scafctl_plugin_auth_gith.Pat.{has_pat_credentials, reply_of, unauthenticated}
use scafctl_plugin_auth_gith.CliMode.GetStatus.{
  get_status, stored_status, status_of, expired_status, signed_in,
}
use scafctl_plugin_auth_gith.CliMode.GetToken.{get_token, stored_token}
use scafctl_plugin_auth_gith.CliMode.GetToken.Stored.{get_token-stored}

module _ ⦃W : World⦄ {secrets : W.State → String → Option String} {time : W.State → ℤ}
    (R : Reliable W secrets time) (client : W.HostClient) (p : Handler W) (ctx : Context W)
    (here : host_client p ctx ≡ some client) (valid : validate_profile ctx.profile ≡ ok tt) where
  exists-runs :
      (key : String) (s : W.State)
      → secret_exists p ctx key s ≡ (ok (was_found (ok (secrets s key))), s)
  unfolding secret_exists exists_in ◌>>=◌ try pure caught
  exists-runs key s = rw (here, R.get_secret client key s) refl

  status_of-runs :
      (m : TokenMetadata) (s : W.State)
      → status_of (ok m) s ≡ (
        ok (
            if is_past_at m.refresh_token_expires_at (time s)
            then expired_status m
            else signed_in m),
        s,
      )
  unfolding status_of pure
  status_of-runs m s =
      bind_runs (is_past m.refresh_token_expires_at) _ s s _
        (past-runs R client m.refresh_token_expires_at s)

  abbrev described : Exec W.State Status
  described = do loaded ← try (load_metadata p ctx); status_of loaded

  described-runs :
      (value : String) (m : TokenMetadata) (s : W.State)
      → secrets s (key_of ctx.profile metadata) ≡ some value
      → W.decode_metadata value ≡ ok m
      → described s ≡ status_of (ok m) s
  unfolding ◌>>=◌ try caught wrapped
  described-runs value m s held decoded =
      rw (metadata-runs R client p ctx here valid value s held, decoded) refl

  -- An access token alone makes the status look at the metadata.
  either_secret :
      (has_refresh : Bool) (s : W.State)
      → (if not has_refresh && not true then pure unauthenticated else described) s ≡ described s
  either_secret true s = refl
  either_secret false s = refl

  access_found :
      (token : String) (s : W.State)
      → secrets s (key_of ctx.profile access_token) ≡ some token
      → secret_exists p ctx (or_empty (profile_secret_key secret_key_access_token ctx.profile)) s
        ≡ (ok true, s)
  unfolding was_found
  access_found token s held =
      exists-runs _ s
      ∙ ap (λ k. (ok (was_found (ok (secrets s (or_empty k)))), s))
          (profile_secret_key_valid access_token ctx.profile valid)
      ∙ ap (λ o. (ok (was_found (ok o)), s)) held

  stored-runs :
      (token : String) (s : W.State)
      → secrets s (key_of ctx.profile access_token) ≡ some token
      → stored_status p ctx s ≡ described s
  unfolding stored_status
  stored-runs token s held =
      bind_runs
        (secret_exists p ctx (or_empty (profile_secret_key secret_key_refresh_token ctx.profile))) _
        s s _ (exists-runs _ s)
      ∙ bind_runs
          (secret_exists p ctx (or_empty (profile_secret_key secret_key_access_token ctx.profile)))
          _ s s true (access_found token s held)
      ∙ either_secret _ s

  status-runs :
      (s : W.State) → has_pat_credentials s ≡ false → get_status p ctx s ≡ stored_status p ctx s
  unfolding get_status ◌>>=◌ lift gets
  status-runs s no_pat = rw (valid, no_pat) refl

  -- If the host is reliable, a host client is there, the profile's name is valid, encoding a cache
  -- entry as JSON does not panic, no personal access token is in the environment, and a non-empty access token and metadata that can be decoded are stored, then
  -- the status is the one that the metadata describes until its deadline for refresh tokens is
  -- past and `session expired` from then on, while a token request that forces a refresh answers
  -- with the stored token and an expiry of one year from now in both cases.
  pub get_status-get_token :
      (req : TokenRequest) (token value : String) (m : TokenMetadata) (s : W.State)
      → has_pat_credentials s ≡ false
      → req.force_refresh ≡ true
      → secrets s (key_of ctx.profile access_token) ≡ some token
      → token == "" ≡ false
      → secrets s (key_of ctx.profile metadata) ≡ some value
      → W.decode_metadata value ≡ ok m
      → ((entry : TokenCacheEntry) (e : String) → ¬ (W.encode_entry entry ≡ panic e))
      → (get_status p ctx s ≡ (
        ok (
            if is_past_at m.refresh_token_expires_at (time s)
            then expired_status m
            else signed_in m),
        s,
      ))
        × ((get_token p ctx req s).0 ≡ ok (reply_of (stored_token token (time s +ℤ one_year))))
  get_status-get_token req token value m s no_pat forced held full described decoded safe = (
    status-runs s no_pat
        ∙ stored-runs token s held
        ∙ described-runs value m s described decoded
        ∙ status_of-runs m s,
    get_token-stored R client p ctx here valid req token s no_pat forced held full safe,
  )
