-- ===== src/Token/Mint.antt =====
-- mintToken and refreshAccessToken of token.go.
pub mod Isolation
pub mod Rotation
use scafctl_plugin_auth_gith.Prelude.{
  String, ◌<>◌, ◌==◌, ℤ, pos, ◌+ℤ◌, ltb_ℤ, not, ◌&&◌, List, [], ◌∷◌, if◌then◌else◌,
}
use scafctl_plugin_auth_gith.Effect.{
  Result, ok, err, panic, Exec, pure, fail, lift, try, wrapped, ◌>>=◌, ◌>>◌, ◌or_wrap◌,
}
use scafctl_plugin_auth_gith.Types.{Flow, no_flow, Token, TokenMetadata, TokenResponse, zero_time}
use scafctl_plugin_auth_gith.World.{World, Form}
use scafctl_plugin_auth_gith.Config.{Config, get_oauth_base_url}
use scafctl_plugin_auth_gith.Handler.{Handler, Context, binary_name}
use scafctl_plugin_auth_gith.Token.Load.{load_refresh_token, load_metadata}
use scafctl_plugin_auth_gith.Token.Store.{store_credentials, scope_or, seconds, eight_hours}

abbrev pub token_endpoint : Config → String
token_endpoint c = get_oauth_base_url c <> "/login/oauth/access_token"

abbrev pub refresh_form : String → String → Form
refresh_form client_id refresh_token =
    ("client_id", client_id)
    ∷ ("grant_type", "refresh_token")
    ∷ ("refresh_token", refresh_token)
    ∷ []

-- What the stored metadata says of the login, or the zero values where it could not be loaded.
abbrev pub flow_of : Result TokenMetadata → Flow
flow_of (ok m) = m.flow
flow_of (err e) = no_flow
flow_of (panic e) = no_flow

abbrev pub session_of : Result TokenMetadata → String
session_of (ok m) = m.session_id
session_of (err e) = ""
session_of (panic e) = ""

abbrev pub scopes_of : Result TokenMetadata → List String
scopes_of (ok m) = m.scopes
scopes_of (err e) = []
scopes_of (panic e) = []

module _ ⦃W : World⦄ where
  -- Stored again only if the metadata could be loaded; a failure is logged and dropped.
  store_rotated :
      Handler W → Context W → TokenResponse → Result TokenMetadata → Exec W.State (Unit {0})
  store_rotated p ctx resp (ok m) =
      try (store_credentials p ctx resp m.scopes m.session_id m.flow) >> pure tt
  store_rotated p ctx resp (err e) = pure tt
  store_rotated p ctx resp (panic e) = lift (panic e)

  rotate :
      Handler W
      → Context W
      → String
      → TokenResponse
      → Result TokenMetadata
      → Exec W.State (Unit {0})
  unfolding store_rotated
  rotate p ctx refresh_token resp metadata =
      if not (resp.refresh_token == "") && not (resp.refresh_token == refresh_token)
      then store_rotated p ctx resp metadata
      else pure tt

  -- Eight hours, or the lifetime that the server gave. The clock is read again for the latter.
  minted_deadline : TokenResponse → Exec W.State ℤ
  minted_deadline resp = do
    fallback ← W.now
    if ltb_ℤ (pos 0) resp.expires_in
        then (do now ← W.now; pure (now +ℤ seconds resp.expires_in))
        else pure (fallback +ℤ eight_hours)

  abbrev pub minted : TokenResponse → Result TokenMetadata → ℤ → Token
  minted resp metadata expires_at = record {
    access_token = resp.access_token;
    token_type = resp.token_type;
    expires_at = expires_at;
    scope = scope_or resp.scope (scopes_of metadata);
    cached_at = zero_time;
    flow = flow_of metadata;
    session_id = session_of metadata;
  }

  unfoldable pub accept_refresh :
      Handler W → Context W → String → TokenResponse → Result TokenMetadata → Exec W.State Token
  unfolding rotate minted_deadline
  accept_refresh p ctx refresh_token resp metadata =
      if resp.access_token == ""
      then fail (
          "refresh token expired or revoked, please re-authenticate with '"
          <> (binary_name p <> " auth login github'"))
      else (do
        rotate p ctx refresh_token resp metadata
        expires_at ← minted_deadline resp
        pure (minted resp metadata expires_at))

  unfoldable pub refresh_access_token : Handler W → Context W → String → String → Exec W.State Token
  unfolding accept_refresh
  refresh_access_token p ctx refresh_token client_id = do
    metadata ← try (load_metadata p ctx)
    resp ←
        W.post_form p.http_client (token_endpoint p.config) (refresh_form client_id refresh_token)
        or_wrap "token refresh request failed"
    parsed ← lift (wrapped "failed to parse token response" (W.decode_token resp.body))
    accept_refresh p ctx refresh_token parsed metadata

  unfoldable pub mint_token : Handler W → Context W → Exec W.State Token
  mint_token p ctx = do
    refresh_token ← load_refresh_token p ctx or_wrap "not authenticated"
    metadata ← load_metadata p ctx or_wrap "failed to load metadata"
    if metadata.client_id == ""
        then fail (
            "stored credentials are missing client ID, please re-authenticate with '"
            <> (binary_name p <> " auth login github'"))
        else refresh_access_token p ctx refresh_token metadata.client_id
