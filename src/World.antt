-- ===== src/World.antt =====
-- What the plugin calls and does not implement, as one record: the host's secret service, the
-- HTTP transport, the clock, the environment, JSON, hashing and the browser. A call may change the
-- state of the world and may return an error.
use scafctl_plugin_auth_gith.Prelude.{String, ℕ, ℤ, Bool, List, Option}
use scafctl_plugin_auth_gith.Settings.{Config, ServerConfig}
use scafctl_plugin_auth_gith.Effect.{Result, Exec}
use scafctl_plugin_auth_gith.Types.{
  TokenCacheEntry, TokenMetadata, TokenResponse, TokenErrorResponse, TokenBody, User,
  DeviceCodeResponse, AppInfo, InstallationTokenResponse, Response, Token, DeviceCodePrompt, Flow,
  TokenReply, FetchResult,
}

-- `url.Values` with one value to a key, and HTTP headers.
abbrev pub Form : Type 0
Form = List (String × String)

-- The outcomes of the `select` of authCodeLogin.
pub data Callback : Type 0 where
  code : String → Callback
  failed : String → Callback
  timed_out cancelled : Callback

pub record World : Type 1 where
  pub State : Type 0
  -- `sdkplugin.HostServiceClient`: a client, and its four calls on the host's secrets.
  pub HostClient : Type 0
  pub get_secret : HostClient → String → Exec State (Option String)
  pub set_secret : HostClient → String → String → Exec State (Unit {0})
  pub delete_secret : HostClient → String → Exec State (Unit {0})
  pub list_secrets : HostClient → String → Exec State (List String)
  -- An implementation of the `HTTPClient` interface of http.go, and its three methods.
  pub HttpClient : Type 0
  pub post_form : HttpClient → String → Form → Exec State Response
  pub http_get : HttpClient → String → Form → Exec State Response
  pub post_json : HttpClient → String → Form → Exec State Response
  -- `time.Now`, `os.Getenv`, `os.ReadFile`, `uuid.New`, the browser and the prompt callback.
  pub now : Exec State ℤ
  pub getenv : State → String → String
  pub read_file : String → Exec State String
  pub new_uuid : Exec State String
  pub open_browser : String → Exec State (Unit {0})
  pub notify : DeviceCodePrompt → Exec State (Unit {0})
  -- `context.WithTimeout`; the next event of the loop's `select` for a ticker of the given
  -- interval, which is a tick or the end of the context; and a bound on the ticks before that end.
  pub with_timeout : ℤ → Exec State (Unit {0})
  pub await_tick : ℤ → Exec State Bool
  pub ticks_left : State → ℕ
  -- The oauth-helpers package: verifiers, the callback server, and what its `select` receives.
  pub generate_code_verifier : Exec State String
  pub code_challenge : String → String
  pub start_callback_server : String → Exec State String
  pub close_callback_server : Exec State (Unit {0})
  pub await_callback : ℤ → Exec State Callback
  pub encode_query : Form → String
  pub format_duration : ℤ → String
  -- The SDK's `Token.IsValidFor`, which reads the clock, and `auth.DefaultMinValidFor`.
  pub is_valid_for : Token → ℤ → Exec State Bool
  pub default_min_valid_for : ℤ
  -- `encoding/json` at the source's types.
  pub encode_entry : TokenCacheEntry → Result String
  pub decode_entry : String → Result TokenCacheEntry
  pub encode_metadata : TokenMetadata → Result String
  pub decode_metadata : String → Result TokenMetadata
  pub decode_token : String → Result TokenResponse
  pub decode_token_error : String → Result TokenErrorResponse
  pub decode_token_body : String → Result TokenBody
  pub decode_user : String → Result User
  pub decode_device_code : String → Result DeviceCodeResponse
  pub decode_app_info : String → Result AppInfo
  pub decode_installation : String → Result InstallationTokenResponse
  -- `auth.Flow` as the text that `%s` prints.
  pub flow_text : Flow → String
  -- `hex.EncodeToString(sha256.Sum256(s))`, `%q` of fmt, `fmt.Sscanf(v, "%d", &id)`.
  pub sha256_hex : String → String
  pub quote : String → String
  pub scan_int64 : String → Option ℤ
  -- `net.SplitHostPort`: the host, or nothing if it returns an error.
  pub split_host : String → Option String
  -- `jwt.ParseRSAPrivateKeyFromPEM`, and `SignedString` of RS256 claims: issued, expires, issuer.
  pub PrivateKey : Type 0
  pub parse_rsa : String → Result PrivateKey
  pub sign_jwt : PrivateKey → ℤ → ℤ → String → Result String
  -- `NewDefaultHTTPClient`, which http.go backs by the httpc package.
  pub default_http_client : HttpClient
  -- The SDK's `SecretRef.Validate` and `SecretRef.Resolve`.
  pub validate_ref : String → Result (Unit {0})
  pub resolve_ref : String → Exec State String
  -- `json.Unmarshal` into a `Config` that holds values already: what it holds then, also if an
  -- error is returned.
  pub unmarshal_config : String → Config → Config × Result (Unit {0})
  -- A strict `Decode` of a `ServerConfig`, with the text that is left behind the JSON value.
  pub decode_server_config : String → Result (ServerConfig × String)
  -- The go-flight package: a manager with an expiry threshold over a store with a buffer, and `Do`.
  pub Manager : Type 0
  pub new_manager : ℤ → ℤ → Exec State Manager
  pub manager_do : Manager → String → Exec State FetchResult → Exec State TokenReply
