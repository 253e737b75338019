-- ===== src/DeviceFlow.antt =====
-- internal/github/device_flow.go: the device code request, the polling loop and the login that
-- runs both.
pub mod Tokens
pub mod SignedIn
pub mod Polling
pub mod Approval
pub mod Intervals
pub mod Isolation
use scafctl_plugin_auth_gith.Prelude.{
  String, ◌<>◌, ◌==◌, ℕ, zero, suc, ℤ, pos, ◌+ℤ◌, ltb_ℤ, eqb_ℤ, eqb, wrap, Bool, true, false,
  Option, none, some, List, [], ◌∷◌, if◌then◌else◌,
}
use scafctl_plugin_auth_gith.Prelude.Text.{join, format_int}
use scafctl_plugin_auth_gith.Effect.{
  Result, ok, err, panic, Exec, pure, fail, lift, gets, try, wrapped, ◌>>=◌, ◌>>◌, ◌or_wrap◌,
}
use scafctl_plugin_auth_gith.Types.{
  device_code, LoginRequest, LoginResponse, DeviceCodeResponse, DeviceCodePrompt, TokenResponse,
  TokenErrorResponse, TokenBody, Response,
}
use scafctl_plugin_auth_gith.World.{World, Form}
use scafctl_plugin_auth_gith.Config.{Config, get_oauth_base_url}
use scafctl_plugin_auth_gith.Handler.{Handler, Context, BrowserOpener}
use scafctl_plugin_auth_gith.Token.Store.{store_credentials, seconds, eight_hours}
use scafctl_plugin_auth_gith.Token.Mint.{token_endpoint}

-- Five minutes, and five seconds.
abbrev pub default_timeout : ℤ
default_timeout = pos 300000000000

abbrev pub default_min_poll_interval : ℤ
default_min_poll_interval = pos 5000000000

-- The request's scopes and timeout, or the defaults.
abbrev or_default : List String → List String → List String
or_default [] defaults = defaults
or_default (scope ∷ scopes) defaults = scope ∷ scopes

unfoldable pub scopes_or_default : LoginRequest → Config → List String
scopes_or_default req c = or_default req.scopes c.default_scopes

unfoldable pub timeout_or_default : LoginRequest → ℤ
timeout_or_default req = if eqb_ℤ req.timeout (pos 0) then default_timeout else req.timeout

abbrev pub device_code_form : Config → List String → Form
device_code_form c scopes = ("client_id", c.client_id) ∷ ("scope", join scopes " ") ∷ []

abbrev pub poll_form : Config → String → Form
poll_form c code =
    ("client_id", c.client_id)
    ∷ ("device_code", code)
    ∷ ("grant_type", "urn:ietf:params:oauth:grant-type:device_code")
    ∷ []

-- The smallest interval that the loop polls at, and the one that it starts with.
unfoldable pub min_poll_interval : Config → ℤ
min_poll_interval c =
    if eqb_ℤ c.min_poll_interval (pos 0) then default_min_poll_interval else c.min_poll_interval

unfoldable pub start_interval : Config → DeviceCodeResponse → ℤ
unfolding min_poll_interval
start_interval c response =
    let interval = seconds response.interval in
    if ltb_ℤ interval (min_poll_interval c) then min_poll_interval c else interval

-- `interval += slowDownIncr`, in 64 bits.
unfoldable pub slowed : Config → ℤ → ℤ
slowed c interval = wrap (
    interval
    +ℤ (if eqb_ℤ c.slow_down_increment (pos 0) then pos 5000000000 else c.slow_down_increment))

-- What a round of the loop ends with.
pub data Round : Type 0 where
  again slow_down : Round
  finished : Result TokenResponse → Round

-- The switch over the body's error code.
unfoldable pub round_of_error : TokenErrorResponse → Round
round_of_error e =
    if e.error == "authorization_pending"
    then again
    else if e.error == "slow_down"
    then slow_down
    else if e.error == "expired_token"
    then finished (err "authentication timed out")
    else if e.error == "access_denied"
    then finished (err "user cancelled authentication")
    else finished (err ("token request failed: " <> (e.error <> (" - " <> e.error_description))))

unfoldable pub round_of_body : TokenBody → Round
unfolding round_of_error
round_of_body body =
    if body.token.access_token == "" then round_of_error body.failure else finished (ok body.token)

module _ ⦃W : World⦄ where
  abbrev pub round_of_decoded : Result TokenBody → Round
  round_of_decoded (ok body) = round_of_body body
  round_of_decoded (err e) = finished (wrapped "failed to parse token response" (err e))
  round_of_decoded (panic e) = finished (panic e)

  -- A transport error is passed over; a body that does not parse ends the loop.
  unfoldable pub round_of_answer : Result Response → Round
  round_of_answer (ok resp) = round_of_decoded (W.decode_token_body resp.body)
  round_of_answer (err e) = again
  round_of_answer (panic e) = finished (panic e)

  -- A ticker refuses an interval that is not positive.
  abbrev pub check_ticker : ℤ → Exec W.State (Unit {0})
  check_ticker interval =
      if ltb_ℤ (pos 0) interval then pure tt else lift (panic "non-positive interval for ticker")

  -- One event of the `select`: the end of the context, or a tick and its request.
  unfoldable pub poll_round : Handler W → String → ℤ → Exec W.State Round
  poll_round p code interval = do
    ticked ← W.await_tick interval
    if ticked
        then (do
          answer ←
              try (W.post_form p.http_client (token_endpoint p.config) (poll_form p.config code))
          pure (round_of_answer answer))
        else pure (finished (err "authentication timed out"))

  -- The loop, with a bound on its rounds; nothing is returned if the bound is reached.
  unfoldable pub poll_loop : ℕ → Handler W → String → ℤ → Exec W.State (Option TokenResponse)
  poll_loop zero p code interval = pure none
  poll_loop (suc fuel) p code interval = do
    round ← poll_round p code interval
    elim round [
      | again ↦ poll_loop fuel p code interval
      | slow_down ↦ (do
        check_ticker (slowed p.config interval)
        poll_loop fuel p code (slowed p.config interval))
      | finished result ↦ (do resp ← lift result; pure (some resp))
    ]

  -- The loop ends within the ticks that the context leaves, so the second case is not reached.
  polled : Option TokenResponse → Exec W.State TokenResponse
  polled (some resp) = pure resp
  polled none = fail "authentication timed out"

  unfoldable pub poll_for_token : Handler W → DeviceCodeResponse → Exec W.State TokenResponse
  unfolding polled
  poll_for_token p response = do
    let interval = start_interval p.config response
    check_ticker interval
    bound ← gets W.ticks_left
    answer ← poll_loop (suc bound) p response.device_code interval
    polled answer

  refused : ℕ → Result TokenErrorResponse → String
  refused status (ok e) =
      "device code request failed: " <> (e.error <> (" - " <> e.error_description))
  refused status (err e) = "device code request failed with status " <> format_int (pos status)
  refused status (panic e) = e

  device_code_of : Response → Exec W.State DeviceCodeResponse
  unfolding refused
  device_code_of resp =
      if eqb resp.status_code 200
      then lift (wrapped "failed to parse device code response" (W.decode_device_code resp.body))
      else fail (refused resp.status_code (W.decode_token_error resp.body))

  unfoldable pub request_device_code : Handler W → List String → Exec W.State DeviceCodeResponse
  unfolding device_code_of
  request_device_code p scopes = do
    resp ←
        W.post_form p.http_client (get_oauth_base_url p.config <> "/login/device/code")
          (device_code_form p.config scopes)
        or_wrap "device code request failed"
    device_code_of resp

  -- The session's end that a login reports.
  unfoldable pub session_deadline : TokenResponse → Exec W.State ℤ
  session_deadline resp = do
    fallback ← W.now
    if ltb_ℤ (pos 0) resp.refresh_token_expires_in
        then (do now ← W.now; pure (now +ℤ seconds resp.refresh_token_expires_in))
        else pure (fallback +ℤ eight_hours)

  abbrev prompt_of : DeviceCodeResponse → DeviceCodePrompt
  prompt_of response = record {
    user_code = response.user_code;
    verification_uri = response.verification_uri;
    message = "";
  }

  abbrev opener_or_default : Option (BrowserOpener W) → BrowserOpener W
  opener_or_default none = W.open_browser
  opener_or_default (some opener) = opener

  -- The opener that the plugin was given, or the oauth-helpers package's.
  unfoldable pub browser_opener : Handler W → BrowserOpener W
  browser_opener p = opener_or_default p.open_browser

  open_if : Handler W → Bool → String → Exec W.State (Unit {0})
  unfolding browser_opener
  open_if p false url = pure tt
  open_if p true url = try (browser_opener p url) >> pure tt

  unfoldable pub perform_device_code_flow :
      Handler W → Context W → List String → Bool → Exec W.State LoginResponse
  unfolding open_if
  perform_device_code_flow p ctx scopes open_browser = do
    response ← request_device_code p scopes or_wrap "github: device_code_request"
    open_if p open_browser response.verification_uri
    W.notify (prompt_of response)
    resp ← poll_for_token p response or_wrap "github: token_poll"
    claims ← store_credentials p ctx resp scopes "" device_code or_wrap "github: store_credentials"
    expires_at ← session_deadline resp
    pure (record { claims = claims; expires_at = expires_at })

  unfoldable pub device_code_login :
      Handler W → Context W → LoginRequest → Exec W.State LoginResponse
  device_code_login p ctx req = do
    W.with_timeout (timeout_or_default req)
    perform_device_code_flow p ctx (scopes_or_default req p.config) false

  unfoldable pub interactive_device_code_login :
      Handler W → Context W → LoginRequest → Exec W.State LoginResponse
  interactive_device_code_login p ctx req = do
    W.with_timeout (timeout_or_default req)
    perform_device_code_flow p ctx (scopes_or_default req p.config) true
