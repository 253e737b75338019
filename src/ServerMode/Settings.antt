-- ===== src/ServerMode/Settings.antt =====
-- `ServerConfig.Validate`, `GetHostname` and `GetAPIBaseURL` of internal/github/config.go, and the
-- flows that allowedServerFlows of server_mode.go lists.
use scafctl_plugin_auth_gith.Prelude.{
  String, ◌<>◌, ◌==◌, pos, eqb_ℤ, Bool, true, false, ◌&&◌, Option, none, some, if◌then◌else◌,
}
use scafctl_plugin_auth_gith.Effect.{Exec, pure, fail, lift, wrapped, ◌>>◌, ◌or_wrap◌}
use scafctl_plugin_auth_gith.Types.{
  Flow, no_flow, pat, device_code, github_app, interactive, other_flow,
}
use scafctl_plugin_auth_gith.Settings.{PatCredentialConfig, AppCredentialConfig, ServerConfig}
use scafctl_plugin_auth_gith.World.{World}
use scafctl_plugin_auth_gith.Config.{default_hostname, api_base_url}

unfoldable pub is_allowed_server_flow : Flow → Bool
is_allowed_server_flow pat = true
is_allowed_server_flow github_app = true
is_allowed_server_flow device_code = false
is_allowed_server_flow interactive = false
is_allowed_server_flow no_flow = false
is_allowed_server_flow (other_flow text) = false

unfoldable pub get_hostname : ServerConfig → String
get_hostname sc = if sc.hostname == "" then default_hostname else sc.hostname

unfoldable pub server_api_base_url : ServerConfig → String
unfolding get_hostname
server_api_base_url sc = api_base_url (get_hostname sc)

module _ ⦃W : World⦄ where
  unfoldable pub validate_pat : Option PatCredentialConfig → Exec W.State (Unit {0})
  validate_pat none = fail "credential.pat.token is required for pat server flow"
  validate_pat (some c) =
      if c.token == ""
      then fail "credential.pat.token is required for pat server flow"
      else lift (wrapped "credential.pat.token" (W.validate_ref c.token))

  validate_app : Option AppCredentialConfig → Exec W.State (Unit {0})
  validate_app none = fail "credential.app is required for github_app server flow"
  validate_app (some app) =
      if app.client_id == "" && eqb_ℤ app.app_id (pos 0)
      then fail "credential.app.clientId or credential.app.appId is required"
      else if eqb_ℤ app.installation_id (pos 0)
      then fail "credential.app.installationId is required"
      else if app.private_key == ""
      then fail "credential.app.privateKey is required"
      else (do
        lift (wrapped "credential.app.privateKey" (W.validate_ref app.private_key))
        W.resolve_ref app.private_key or_wrap "resolving private key"
        pure tt)

  unfoldable pub validate_flow : ServerConfig → Flow → Exec W.State (Unit {0})
  unfolding validate_pat validate_app
  validate_flow sc no_flow = fail "serverFlow is required"
  validate_flow sc pat = validate_pat sc.credential.pat
  validate_flow sc github_app = validate_app sc.credential.app
  validate_flow sc flow = fail (
      "serverFlow " <> (W.quote (W.flow_text flow) <> " is not allowed (allowed: pat, github_app)"))

  unfoldable pub validate_server : ServerConfig → Exec W.State (Unit {0})
  unfolding validate_flow
  validate_server sc = validate_flow sc sc.server_flow
