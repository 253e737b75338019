-- ===== src/ServerMode/Flows.antt =====
-- The token flows of internal/github/server_mode.go, and their cache of cachedflow.go.
use scafctl_plugin_auth_gith.Prelude.{
  String, ◌<>◌, ◌==◌, ℤ, pos, ◌-ℤ◌, saturated, Option, none, some, if◌then◌else◌,
}
use scafctl_plugin_auth_gith.Prelude.Text.{format_int}
use scafctl_plugin_auth_gith.Effect.{Exec, panic, pure, fail, lift, wrapped, ◌>>=◌, ◌or_wrap◌}
use scafctl_plugin_auth_gith.Types.{
  Flow, pat, github_app, TokenReply, FetchResult, InstallationTokenResponse,
}
use scafctl_plugin_auth_gith.Settings.{PatCredentialConfig, AppCredentialConfig, CredentialConfig}
use scafctl_plugin_auth_gith.World.{World}
use scafctl_plugin_auth_gith.AppFlow.{
  parse_rsa_private_key, create_server_app_jwt, create_installation_token_http,
}
use scafctl_plugin_auth_gith.Token.Store.{far_future}

-- `FlowParams`.
pub record FlowParams : Type 0 where
  pub scope : String

-- `FlowFn`.
abbrev pub FlowFn : World → Type 0
FlowFn W = FlowParams → Exec W.State TokenReply

abbrev pub nil_dereference : String
nil_dereference = "runtime error: invalid memory address or nil pointer dereference"

-- Ten minutes, five minutes.
abbrev pub default_expiry_threshold : ℤ
default_expiry_threshold = pos 600000000000

abbrev pub default_store_buffer : ℤ
default_store_buffer = pos 300000000000

abbrev pub installation_flow_key : String
installation_flow_key = "install"

-- The reply of patFlow, and of serverInstallationFlow.
abbrev pub pat_answer : String → ℤ → TokenReply
pat_answer token expires_at = record {
  access_token = token;
  token_type = "Bearer";
  expires_at = expires_at;
  scope = "";
  flow = pat;
  session_id = "";
}

abbrev pub installation_answer : InstallationTokenResponse → TokenReply
installation_answer t = record {
  access_token = t.token;
  token_type = "Bearer";
  expires_at = t.expires_at;
  scope = "";
  flow = github_app;
  session_id = "";
}

module _ ⦃W : World⦄ where
  unfoldable pub pat_flow : String → FlowFn W
  pat_flow token params = do expires_at ← far_future; pure (pat_answer token expires_at)

  -- The client ID goes before the numeric App ID.
  unfoldable pub server_issuer : AppCredentialConfig → String
  server_issuer app = if app.client_id == "" then format_int app.app_id else app.client_id

  unfoldable pub server_installation_flow :
      Option AppCredentialConfig → String → W.HttpClient → FlowFn W
  server_installation_flow none api_base_url client params = lift (panic nil_dereference)
  server_installation_flow (some app) api_base_url client params = do
    key_pem ← W.resolve_ref app.private_key or_wrap "resolving private key"
    key ← lift (wrapped "parsing private key" (parse_rsa_private_key key_pem))
    app_jwt ← create_server_app_jwt (server_issuer app) key or_wrap "creating app JWT"
    token ←
        create_installation_token_http client api_base_url app_jwt app.installation_id
        or_wrap "creating installation token"
    pure (installation_answer token)

  -- The personal access token is read once, here.
  unfoldable pub resolved_pat : Option PatCredentialConfig → Exec W.State (FlowFn W)
  resolved_pat none = lift (panic nil_dereference)
  resolved_pat (some c) = do
    token ← W.resolve_ref c.token or_wrap "resolving PAT"
    pure (pat_flow token)

  unfoldable pub build_server_flow_fn :
      Flow → CredentialConfig → String → W.HttpClient → Exec W.State (FlowFn W)
  unfolding resolved_pat
  build_server_flow_fn pat cc api_base_url client = resolved_pat cc.pat
  build_server_flow_fn github_app cc api_base_url client =
      pure (server_installation_flow cc.app api_base_url client)
  build_server_flow_fn flow cc api_base_url client =
      fail ("unsupported server flow: " <> W.flow_text flow)

  -- What `Do` runs when it has to fetch; `time.Until` saturates.
  unfoldable pub fetch_for_cache : FlowFn W → FlowParams → Exec W.State FetchResult
  fetch_for_cache inner params = do
    resp ← inner params
    now ← W.now
    pure (record { value = resp; ttl = saturated (resp.expires_at -ℤ now) })

  unfoldable pub cached_flow : FlowFn W → Option W.Manager → FlowFn W
  cached_flow inner none params = inner params
  cached_flow inner (some manager) params =
      W.manager_do manager installation_flow_key (fetch_for_cache inner params)

  unfoldable pub new_installation_cache_manager : Exec W.State W.Manager
  new_installation_cache_manager = W.new_manager default_expiry_threshold default_store_buffer
