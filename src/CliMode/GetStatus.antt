-- ===== src/CliMode/GetStatus.antt =====
-- GetStatus of internal/github/cli_mode.go.
pub mod SignedOut
pub mod Agreement
pub mod Isolation
use scafctl_plugin_auth_gith.Prelude.{true, not, ◌&&◌, if◌then◌else◌}
use scafctl_plugin_auth_gith.Effect.{
  Result, ok, err, panic, Exec, pure, lift, gets, try, or_empty, ◌>>=◌, ◌>>◌,
}
use scafctl_plugin_auth_gith.Types.{user, TokenMetadata, Status}
use scafctl_plugin_auth_gith.World.{World}
use scafctl_plugin_auth_gith.Profile.{
  validate_profile, profile_secret_key, secret_key_refresh_token, secret_key_access_token,
}
use scafctl_plugin_auth_gith.Handler.{Handler, Context, secret_exists}
use scafctl_plugin_auth_gith.Cache.{is_past}
use scafctl_plugin_auth_gith.Token.Load.{load_metadata}
use scafctl_plugin_auth_gith.Pat.{has_pat_credentials, pat_status, unauthenticated}

module _ ⦃W : World⦄ where
  abbrev pub expired_status : TokenMetadata → Status
  expired_status m = record unauthenticated { reason = "session expired"; claims = m.claims }

  abbrev pub signed_in : TokenMetadata → Status
  signed_in m = record {
    authenticated = true;
    reason = "";
    claims = m.claims;
    expires_at = m.refresh_token_expires_at;
    last_refresh = m.last_refresh;
    identity_type = user;
    client_id = m.client_id;
    scopes = m.scopes;
  }

  status_of : Result TokenMetadata → Exec W.State Status
  status_of (ok m) = do
    expired ← is_past m.refresh_token_expires_at
    pure (if expired then expired_status m else signed_in m)
  status_of (err e) = pure unauthenticated
  status_of (panic e) = lift (panic e)

  stored_status : Handler W → Context W → Exec W.State Status
  unfolding status_of
  stored_status p ctx = do
    has_refresh ←
        secret_exists p ctx (or_empty (profile_secret_key secret_key_refresh_token ctx.profile))
    has_access ←
        secret_exists p ctx (or_empty (profile_secret_key secret_key_access_token ctx.profile))
    if not has_refresh && not has_access
        then pure unauthenticated
        else (do metadata ← try (load_metadata p ctx); status_of metadata)

  unfoldable pub get_status : Handler W → Context W → Exec W.State Status
  unfolding stored_status
  get_status p ctx = do
    lift (validate_profile ctx.profile)
    has_pat ← gets has_pat_credentials
    if has_pat then pat_status p else stored_status p ctx
