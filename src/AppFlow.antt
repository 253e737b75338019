-- ===== src/AppFlow.antt =====
-- internal/github/app_flow.go: the GitHub App installation token.
pub mod Isolation
use scafctl_plugin_auth_gith.Prelude.{
  String, ◌<>◌, ℤ, pos, ◌+ℤ◌, ◌-ℤ◌, eqb, Option, none, some, [], if◌then◌else◌,
}
use scafctl_plugin_auth_gith.Prelude.Text.{format_int}
use scafctl_plugin_auth_gith.Effect.{
  Result, Exec, pure, fail, lift, gets, wrapped, or_empty, ◌>>=◌, ◌>>◌, ◌or_wrap◌,
}
use scafctl_plugin_auth_gith.Types.{
  github_app, no_flow, service_principal, Claims, Token, TokenMetadata, AppInfo,
  InstallationTokenResponse, LoginResponse, Response, zero_time,
}
use scafctl_plugin_auth_gith.World.{World}
use scafctl_plugin_auth_gith.Profile.{
  validate_profile, profile_secret_key, secret_key_access_token, secret_key_metadata,
}
use scafctl_plugin_auth_gith.Config.{
  Config, get_api_base_url, get_app_id, get_installation_id, get_private_key, validate_app_config,
}
use scafctl_plugin_auth_gith.Handler.{Handler, Context, host_client}
use scafctl_plugin_auth_gith.Cache.{fingerprint_hash}
use scafctl_plugin_auth_gith.UserClaims.{bearer_header}
use scafctl_plugin_auth_gith.Pat.{cache_if_host}

abbrev pub installation_token_cache_key : String
installation_token_cache_key = "_github_app"

-- A minute ago, and ten minutes from now.
abbrev pub jwt_leeway : ℤ
jwt_leeway = pos 60000000000

abbrev pub jwt_lifetime : ℤ
jwt_lifetime = pos 600000000000

abbrev pub installation_token : InstallationTokenResponse → Token
installation_token t = record {
  access_token = t.token;
  token_type = "Bearer";
  expires_at = t.expires_at;
  scope = "";
  cached_at = zero_time;
  flow = github_app;
  session_id = "";
}

abbrev pub app_claims : Config → AppInfo → ℤ → Claims
app_claims c info now = record {
  issuer = c.hostname;
  subject = "app/" <> info.slug;
  object_id = format_int info.id;
  email = "";
  name = info.name;
  username = info.slug;
  issued_at = now;
}

abbrev pub app_metadata : Config → Claims → ℤ → TokenMetadata
app_metadata c claims now = record {
  claims = some claims;
  refresh_token_expires_at = zero_time;
  last_refresh = now;
  hostname = c.hostname;
  client_id = "";
  scopes = [];
  identity_type = service_principal;
  session_id = "";
  flow = no_flow;
}

module _ ⦃W : World⦄ where
  unfoldable pub parse_rsa_private_key : String → Result W.PrivateKey
  parse_rsa_private_key key_bytes =
      wrapped "failed to parse RSA private key" (W.parse_rsa key_bytes)

  -- createAppJWT; createServerAppJWT differs in taking the issuer's text.
  unfoldable pub create_server_app_jwt : String → W.PrivateKey → Exec W.State String
  create_server_app_jwt issuer key = do
    now ← W.now
    lift (wrapped "signing JWT" (W.sign_jwt key (now -ℤ jwt_leeway) (now +ℤ jwt_lifetime) issuer))

  unfoldable pub create_app_jwt : ℤ → W.PrivateKey → Exec W.State String
  create_app_jwt app_id key = create_server_app_jwt (format_int app_id) key

  app_info_of : Response → Exec W.State AppInfo
  app_info_of resp =
      if eqb resp.status_code 200
      then lift (wrapped "failed to parse app info response" (W.decode_app_info resp.body))
      else fail (
          "GET /app returned status "
          <> (format_int (pos resp.status_code) <> " -- verify app ID and private key are correct"))

  unfoldable pub get_app_info : Handler W → String → Exec W.State AppInfo
  unfolding app_info_of
  get_app_info p app_jwt = do
    resp ←
        W.http_get p.http_client (get_api_base_url p.config <> "/app") (bearer_header app_jwt)
        or_wrap "GET /app failed"
    app_info_of resp

  installation_of : ℤ → Response → Exec W.State InstallationTokenResponse
  installation_of installation_id resp =
      if eqb resp.status_code 201
      then lift
          (wrapped "failed to parse installation token response" (W.decode_installation resp.body))
      else fail (
          "create installation token returned status "
          <> (format_int (pos resp.status_code)
              <> (" -- verify installation ID " <> (format_int installation_id <> " is correct"))))

  unfoldable pub create_installation_token_http :
      W.HttpClient → String → String → ℤ → Exec W.State InstallationTokenResponse
  unfolding installation_of
  create_installation_token_http client api_base_url app_jwt installation_id = do
    resp ←
        W.post_json client
          (api_base_url
            <> ("/app/installations/" <> (format_int installation_id <> "/access_tokens")))
          (bearer_header app_jwt)
        or_wrap "create installation token failed"
    installation_of installation_id resp

  unfoldable pub create_installation_token :
      Handler W → String → ℤ → Exec W.State InstallationTokenResponse
  create_installation_token p app_jwt installation_id =
      create_installation_token_http p.http_client (get_api_base_url p.config) app_jwt
        installation_id

  unfoldable pub installation_cache_key : ℤ → ℤ → String
  installation_cache_key app_id installation_id =
      fingerprint_hash (format_int app_id <> (":" <> format_int installation_id))
      <> (":" <> installation_token_cache_key)

  -- The installation token is the profile's access token, if there is a host.
  store_app_token : Option W.HostClient → String → String → Exec W.State (Unit {0})
  store_app_token none profile token = pure tt
  store_app_token (some client) profile token =
      W.set_secret client (or_empty (profile_secret_key secret_key_access_token profile)) token
      or_wrap "github: store_token: failed to store installation token"

  store_app_metadata : Option W.HostClient → String → String → Exec W.State (Unit {0})
  store_app_metadata none profile value = pure tt
  store_app_metadata (some client) profile value =
      W.set_secret client (or_empty (profile_secret_key secret_key_metadata profile)) value
      or_wrap "github: store_metadata: failed to store metadata"

  -- The second half of appLogin: what is kept of a new installation token.
  keep_installation :
      Handler W
      → Context W
      → ℤ
      → ℤ
      → AppInfo
      → InstallationTokenResponse
      → Exec W.State LoginResponse
  unfolding store_app_token store_app_metadata
  keep_installation p ctx app_id installation_id info token = do
    lift (validate_profile ctx.profile)
    cache_if_host (host_client p ctx) (installation_cache_key app_id installation_id)
        (installation_token token) ctx.profile
    store_app_token (host_client p ctx) ctx.profile token.token
    issued_at ← W.now
    last_refresh ← W.now
    value ← lift (
        wrapped "github: store_metadata: failed to marshal metadata" (
          W.encode_metadata
            (app_metadata p.config (app_claims p.config info issued_at) last_refresh)))
    store_app_metadata (host_client p ctx) ctx.profile value
    pure (record { claims = app_claims p.config info issued_at; expires_at = token.expires_at })

  unfoldable pub app_login : Handler W → Context W → Exec W.State LoginResponse
  unfolding keep_installation
  app_login p ctx = do
    validate_app_config p.config (host_client p ctx) or_wrap "github: app_config"
    app_id ← gets (get_app_id p.config)
    installation_id ← gets (get_installation_id p.config)
    key_bytes ← get_private_key p.config (host_client p ctx) or_wrap "github: private_key"
    key ← lift (wrapped "github: private_key_parse" (parse_rsa_private_key key_bytes))
    app_jwt ← create_app_jwt app_id key or_wrap "github: jwt_create"
    info ← get_app_info p app_jwt or_wrap "github: app_validate: failed to validate GitHub App"
    token ← create_installation_token p app_jwt installation_id or_wrap "github: installation_token"
    keep_installation p ctx app_id installation_id info token
