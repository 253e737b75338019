-- ===== src/AuthCodeFlow.antt =====
-- internal/github/authcode_flow.go: the authorization code flow with PKCE.
pub mod Tokens
pub mod Isolation
pub mod Closing
use scafctl_plugin_auth_gith.Prelude.{String, ◌<>◌, ◌==◌, ℤ, List, [], ◌∷◌, if◌then◌else◌}
use scafctl_plugin_auth_gith.Prelude.Text.{join}
use scafctl_plugin_auth_gith.Effect.{
  Result, ok, err, Exec, pure, fail, lift, try, finally, wrapped, ◌>>=◌, ◌>>◌, ◌or_wrap◌,
}
use scafctl_plugin_auth_gith.Types.{
  interactive, LoginRequest, LoginResponse, DeviceCodePrompt, TokenResponse, TokenBody,
}
use scafctl_plugin_auth_gith.World.{World, Form, Callback, code, failed, timed_out, cancelled}
use scafctl_plugin_auth_gith.Config.{Config, get_oauth_base_url}
use scafctl_plugin_auth_gith.Handler.{Handler, Context}
use scafctl_plugin_auth_gith.Token.Store.{store_credentials}
use scafctl_plugin_auth_gith.Token.Mint.{token_endpoint}
use scafctl_plugin_auth_gith.DeviceFlow.{
  scopes_or_default, timeout_or_default, session_deadline, browser_opener,
}

abbrev pub authorize_params : Config → String → List String → String → String → Form
authorize_params c redirect_uri scopes state challenge =
    ("client_id", c.client_id)
    ∷ ("redirect_uri", redirect_uri)
    ∷ ("scope", join scopes " ")
    ∷ ("state", state)
    ∷ ("code_challenge", challenge)
    ∷ ("code_challenge_method", "S256")
    ∷ []

abbrev secret_param : Config → Form
secret_param c = if c.client_secret == "" then [] else ("client_secret", c.client_secret) ∷ []

abbrev pub exchange_form : Config → String → String → String → Form
exchange_form c auth_code redirect_uri code_verifier =
    ("client_id", c.client_id)
    ∷ ("code", auth_code)
    ∷ ("redirect_uri", redirect_uri)
    ∷ ("code_verifier", code_verifier)
    ∷ secret_param c

-- The token of the exchange's body, or what the body says went wrong.
unfoldable pub exchanged : TokenBody → Result TokenResponse
exchanged body =
    if body.token.access_token == ""
    then (if body.failure.error == ""
        then err "token exchange returned empty access token"
        else err (
            "token exchange failed: "
            <> (body.failure.error <> (" - " <> body.failure.error_description))))
    else ok body.token

abbrev no_browser_response : String → String
no_browser_response timeout =
    "github: auth_code: no response received from browser within "
    <> (timeout
        <> "; if running over SSH or in a headless environment, use '--flow device-code' instead")

abbrev pub reopen_prompt : String → DeviceCodePrompt
reopen_prompt url = record {
  user_code = "";
  verification_uri = url;
  message = "Open this URL in your browser to authenticate";
}

module _ ⦃W : World⦄ where
  unfoldable pub exchange_auth_code :
      Handler W → String → String → String → Exec W.State TokenResponse
  exchange_auth_code p auth_code redirect_uri code_verifier = do
    resp ←
        W.post_form p.http_client (token_endpoint p.config)
          (exchange_form p.config auth_code redirect_uri code_verifier)
        or_wrap "token exchange request failed"
    body ← lift (wrapped "failed to parse token response" (W.decode_token_body resp.body))
    lift (exchanged body)

  -- What the `select` received.
  received : ℤ → Callback → Exec W.State String
  received timeout (code auth_code) = pure auth_code
  received timeout (failed e) = lift (wrapped "github: auth_code" (err e))
  received timeout timed_out = fail (no_browser_response (W.format_duration timeout))
  received timeout cancelled = fail "github: auth_code: authentication cancelled"

  abbrev auth_url : Config → Form → String
  auth_url c params = get_oauth_base_url c <> ("/login/oauth/authorize?" <> W.encode_query params)

  -- From the running callback server to the stored credentials.
  with_callback_server :
      Handler W → Context W → LoginRequest → String → String → String → Exec W.State LoginResponse
  unfolding received
  with_callback_server p ctx req code_verifier state redirect_uri = do
    let scopes = scopes_or_default req p.config
    let url =
        auth_url p.config
          (authorize_params p.config redirect_uri scopes state (W.code_challenge code_verifier))
    try (browser_opener p url)
    W.notify (reopen_prompt url)
    event ← W.await_callback (timeout_or_default req)
    auth_code ← received (timeout_or_default req) event
    resp ←
        exchange_auth_code p auth_code redirect_uri code_verifier or_wrap "github: token_exchange"
    claims ← store_credentials p ctx resp scopes "" interactive or_wrap "github: store_credentials"
    expires_at ← session_deadline resp
    pure (record { claims = claims; expires_at = expires_at })

  unfoldable pub auth_code_login : Handler W → Context W → LoginRequest → Exec W.State LoginResponse
  unfolding with_callback_server
  auth_code_login p ctx req = do
    code_verifier ←
        W.generate_code_verifier or_wrap "github: pkce_generate: generating PKCE code verifier"
    state ← W.generate_code_verifier or_wrap "github: state_generate: generating state parameter"
    redirect_uri ←
        W.start_callback_server state or_wrap "github: callback_server: starting callback server"
    finally (with_callback_server p ctx req code_verifier state redirect_uri)
        W.close_callback_server
