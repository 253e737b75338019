-- ===== src/CliMode/GetToken.antt =====
-- GetToken of internal/github/cli_mode.go.
pub mod Full
pub mod SignedOut
pub mod Stored
pub mod AfterLogin
pub mod Isolation
use scafctl_plugin_auth_gith.Prelude.{String, ◌==◌, ℤ, Option, none, some, if◌then◌else◌}
use scafctl_plugin_auth_gith.Effect.{
  Result, ok, err, panic, Exec, pure, lift, gets, try, ◌>>=◌, ◌>>◌,
}
use scafctl_plugin_auth_gith.Types.{no_flow, Token, TokenRequest, TokenReply, zero_time}
use scafctl_plugin_auth_gith.World.{World}
use scafctl_plugin_auth_gith.Profile.{validate_profile}
use scafctl_plugin_auth_gith.Handler.{Handler, Context, host_client}
use scafctl_plugin_auth_gith.Token.Load.{load_access_token}
use scafctl_plugin_auth_gith.Token.Store.{token_cache_key, far_future}
use scafctl_plugin_auth_gith.Token.Mint.{mint_token}
use scafctl_plugin_auth_gith.Pat.{
  has_pat_credentials, get_pat_token, cached_token, cache_if_host, reply_of,
}

module _ ⦃W : World⦄ where
  abbrev pub stored_token : String → ℤ → Token
  stored_token access_token expires_at = record {
    access_token = access_token;
    token_type = "Bearer";
    expires_at = expires_at;
    scope = "";
    cached_at = zero_time;
    flow = no_flow;
    session_id = "";
  }

  -- The stored access token, unless it is missing, empty or unreadable.
  abbrev stored_access : Result String → Option String
  stored_access (ok token) = if token == "" then none else some token
  stored_access (err e) = none
  stored_access (panic e) = none

  reply_and_cache : Handler W → Context W → Token → Exec W.State TokenReply
  reply_and_cache p ctx token = do
    cache_if_host (host_client p ctx) (token_cache_key p.config) token ctx.profile
    pure (reply_of token)

  stored_or_minted : Handler W → Context W → Option String → Exec W.State TokenReply
  unfolding reply_and_cache
  stored_or_minted p ctx (some access_token) = do
    expires_at ← far_future
    reply_and_cache p ctx (stored_token access_token expires_at)
  stored_or_minted p ctx none = do token ← mint_token p ctx; reply_and_cache p ctx token

  unfoldable pub fresh_token : Handler W → Context W → Option Token → Exec W.State TokenReply
  unfolding stored_or_minted
  fresh_token p ctx (some cached) = pure (reply_of cached)
  fresh_token p ctx none = do
    loaded ← try (load_access_token p ctx)
    stored_or_minted p ctx (stored_access loaded)

  oauth_token : Handler W → Context W → TokenRequest → Exec W.State TokenReply
  unfolding fresh_token
  oauth_token p ctx req = do
    cached ← cached_token (host_client p ctx) (token_cache_key p.config) ctx.profile req
    fresh_token p ctx cached

  unfoldable pub get_token : Handler W → Context W → TokenRequest → Exec W.State TokenReply
  unfolding oauth_token
  get_token p ctx req = do
    lift (validate_profile ctx.profile)
    has_pat ← gets has_pat_credentials
    if has_pat then get_pat_token p ctx req else oauth_token p ctx req
