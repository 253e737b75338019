-- ===== src/Token/Store.antt =====
-- storeCredentials of token.go, step by step: the two secrets, the metadata, and the cache entry.
pub mod Isolation
pub mod Contents
pub mod Outcome
pub mod Loaded
use scafctl_plugin_auth_gith.Prelude.{
  String, ◌<>◌, ◌==◌, ℤ, pos, ◌+ℤ◌, ◌*ℤ◌, ltb_ℤ, wrap, Option, none, some, List, if◌then◌else◌,
}
use scafctl_plugin_auth_gith.Prelude.Text.{join}
use scafctl_plugin_auth_gith.Effect.{
  Result, ok, err, panic, Exec, pure, fail, lift, try, wrapped, or_empty, ◌>>=◌, ◌>>◌, ◌or_wrap◌,
}
use scafctl_plugin_auth_gith.Types.{
  Flow, user, Claims, Token, TokenMetadata, TokenResponse, zero_time,
}
use scafctl_plugin_auth_gith.World.{World}
use scafctl_plugin_auth_gith.Profile.{
  validate_profile, profile_secret_key, secret_key_refresh_token, secret_key_access_token,
  secret_key_metadata, default_cache_key,
}
use scafctl_plugin_auth_gith.Config.{Config, second}
use scafctl_plugin_auth_gith.Handler.{Handler, Context, host_client}
use scafctl_plugin_auth_gith.Cache.{cache_set, fingerprint_hash}
use scafctl_plugin_auth_gith.UserClaims.{fetch_user_claims}

-- `time.Duration(n) * time.Second`, in 64 bits.
unfoldable pub seconds : ℤ → ℤ
seconds n = wrap (n *ℤ second)

-- 365 * 24 hours, and 8 hours.
abbrev pub one_year : ℤ
one_year = pos 31536000000000000

abbrev pub eight_hours : ℤ
eight_hours = pos 28800000000000

-- The claims that are left where the user could not be fetched.
abbrev pub bare_claims : Config → Claims
bare_claims c = record {
  issuer = c.hostname;
  subject = "";
  object_id = "";
  email = "";
  name = "";
  username = "";
  issued_at = zero_time;
}

abbrev pub or_bare : Config → Result Claims → Claims
or_bare c (ok claims) = claims
or_bare c (err e) = bare_claims c
or_bare c (panic e) = bare_claims c

-- `strings.Join(scopes, " ")` where the server named no scope.
unfoldable pub scope_or : String → List String → String
scope_or scope scopes = if scope == "" then join scopes " " else scope

module _ ⦃W : World⦄ where
  unfoldable pub far_future : Exec W.State ℤ
  far_future = do now ← W.now; pure (now +ℤ one_year)

  -- The key of the token cache for the CLI's OAuth tokens.
  unfoldable pub token_cache_key : Config → String
  token_cache_key c = fingerprint_hash c.hostname <> (":" <> default_cache_key)

  -- A secret is written only if it is not empty.
  pub store_if_set : W.HostClient → String → String → String → Exec W.State (Unit {0})
  store_if_set client key value failure =
      if value == "" then pure tt else (W.set_secret client key value or_wrap failure)

  pub session_or_new : String → Exec W.State String
  session_or_new session_id = if session_id == "" then W.new_uuid else pure session_id

  -- `time.Now().Add(...)` of a lifetime in seconds, if the server gave one.
  pub deadline_or_zero : ℤ → Exec W.State ℤ
  deadline_or_zero expires_in =
      if ltb_ℤ (pos 0) expires_in
      then (do now ← W.now; pure (now +ℤ seconds expires_in))
      else pure zero_time

  -- How long the access token counts as valid in the cache.
  pub login_deadline : TokenResponse → Exec W.State ℤ
  login_deadline resp =
      if ltb_ℤ (pos 0) resp.expires_in
      then (do now ← W.now; pure (now +ℤ seconds resp.expires_in))
      else if resp.refresh_token == ""
      then far_future
      else (do now ← W.now; pure (now +ℤ eight_hours))

  -- The metadata that a login records.
  abbrev pub metadata_of : Config → Claims → ℤ → ℤ → List String → String → Flow → TokenMetadata
  metadata_of c claims refresh_token_expires_at last_refresh scopes session_id flow = record {
    claims = some claims;
    refresh_token_expires_at = refresh_token_expires_at;
    last_refresh = last_refresh;
    hostname = c.hostname;
    client_id = c.client_id;
    scopes = scopes;
    identity_type = user;
    session_id = session_id;
    flow = flow;
  }

  abbrev login_token : TokenResponse → ℤ → List String → Flow → String → Token
  login_token resp expires_at scopes flow session_id = record {
    access_token = resp.access_token;
    token_type = resp.token_type;
    expires_at = expires_at;
    scope = scope_or resp.scope scopes;
    cached_at = zero_time;
    flow = flow;
    session_id = session_id;
  }

  pub store_metadata : W.HostClient → String → TokenMetadata → Exec W.State (Unit {0})
  store_metadata client profile metadata = do
    value ← lift (wrapped "failed to marshal metadata" (W.encode_metadata metadata))
    W.set_secret client (or_empty (profile_secret_key secret_key_metadata profile)) value
        or_wrap "failed to store metadata"

  -- The cache entry is best effort: a failure is logged and dropped.
  pub cache_login :
      Config
      → W.HostClient
      → String
      → TokenResponse
      → List String
      → Flow
      → String
      → Exec W.State (Unit {0})
  unfolding login_deadline
  cache_login c client profile resp scopes flow session_id =
      if resp.access_token == "" then pure tt else (do
        expires_at ← login_deadline resp
        try (
            cache_set client (token_cache_key c)
              (login_token resp expires_at scopes flow session_id) profile)
        pure tt)

  pub store_with :
      Handler W
      → W.HostClient
      → String
      → TokenResponse
      → List String
      → String
      → Flow
      → Exec W.State Claims
  unfolding store_if_set session_or_new deadline_or_zero store_metadata cache_login
  store_with p client profile resp scopes session_id flow = do
    lift (validate_profile profile)
    store_if_set client (or_empty (profile_secret_key secret_key_refresh_token profile))
        resp.refresh_token "failed to store refresh token"
    store_if_set client (or_empty (profile_secret_key secret_key_access_token profile))
        resp.access_token "failed to store access token"
    fetched ← try (fetch_user_claims p resp.access_token)
    session ← session_or_new session_id
    refresh_deadline ← deadline_or_zero resp.refresh_token_expires_in
    now ← W.now
    store_metadata client profile
        (metadata_of p.config (or_bare p.config fetched) refresh_deadline now scopes session flow)
    cache_login p.config client profile resp scopes flow session
    pure (or_bare p.config fetched)

  unfoldable pub store_on :
      Handler W
      → Option W.HostClient
      → String
      → TokenResponse
      → List String
      → String
      → Flow
      → Exec W.State Claims
  unfolding store_with
  store_on p none profile resp scopes session_id flow = fail "host service not available"
  store_on p (some client) profile resp scopes session_id flow =
      store_with p client profile resp scopes session_id flow

  unfoldable pub store_credentials :
      Handler W → Context W → TokenResponse → List String → String → Flow → Exec W.State Claims
  unfolding store_on
  store_credentials p ctx resp scopes session_id flow =
      store_on p (host_client p ctx) ctx.profile resp scopes session_id flow
